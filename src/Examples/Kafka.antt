-- ===== src/Examples/Kafka.antt =====
-- The Kafka side: keys, payloads and partitions.
use nats_kafka.Base.{
  ◌+◌, Any, ℕ, ◌<◌, ◌≤◌, List, [], ◌∷◌, ◌++◌, false, ◌≡◌, refl, arith, take, some, All, ◌⊎◌,
}
use nats_kafka.Base.Int.{pos}
use nats_kafka.Base.Outcome.{ok, is_ok}
use nats_kafka.Examples.{codecs, schema}
use nats_kafka.Kafka.{Bytes, Header}
use nats_kafka.Kafka.Key.{dot, wildcard, refine_key, subject_header_key, split, join}
use nats_kafka.Kafka.Key.Laws.{refine_key_matches, IsRefinable}
use nats_kafka.Kafka.Key.Tokens.{IsTokenPrefix}
use nats_kafka.Kafka.Key.Subject.{IsSubject}
use nats_kafka.Kafka.Payload.{
  SchemaType, SchemaSettings, encode_value, decode_value, deserialize_payload, serialize_payload,
  find_schema,
}
use nats_kafka.Kafka.Payload.RoundTrip.{
  deserialize_payload-serialize_payload, deserialize_payload_of_short,
}
use nats_kafka.Kafka.Words.{put_uint32}
use nats_kafka.Kafka.Handshake.{
  Claim, Listener, Group, Moves, Step, Steps, new_group, offer, losses,
}
use nats_kafka.Kafka.Handshake.Stall.{waiting, in_hand, waiting_lem}
use nats_kafka.Kafka.Partitioner.{Counters, partition, find_partition_with_min_bytes}
use nats_kafka.Kafka.Partitioner.Least.{find_partition_with_min_bytes_minimal}
use nats_kafka.Kafka.Partitioner.Keyed.{IsArrangement, IsCounted, Numbered, partition_lem}

-- "c.>" and the subject "a.b.c.d.e.f"
abbrev old_key : Bytes
old_key = 99 ∷ dot ∷ wildcard ∷ []

abbrev headers : List Header
headers =
    record {
      key = subject_header_key;
      value = some (97 ∷ dot ∷ 98 ∷ dot ∷ 99 ∷ dot ∷ 100 ∷ dot ∷ 101 ∷ dot ∷ 102 ∷ []);
    }
    ∷ []

refine_key_matches_example :
    (¬ IsRefinable old_key headers × (refine_key old_key headers ≡ old_key))
    ⊎ (IsRefinable old_key headers
        × (s : Bytes) × (p : Bytes) × IsSubject headers s
        × (refine_key old_key headers ≡ p ++ dot ∷ wildcard ∷ [])
        × (p ≡ join (take 5 (split s)))
        × IsTokenPrefix p s)
refine_key_matches_example = refine_key_matches old_key headers

abbrev settings : SchemaSettings
settings = record { subject_name = "orders"; schema_version = pos 2; schema_type = SchemaType.avro }

deserialize_payload-serialize_payload_example :
    (value : Bytes) × (encode_value codecs SchemaType.avro schema (7 ∷ []) ≡ ok value)
    × (deserialize_payload codecs SchemaType.avro [] (0 ∷ 0 ∷ 0 ∷ 2 ∷ 1 ∷ 7 ∷ [])
        ≡ decode_value codecs SchemaType.avro schema value)
unfolding find_schema encode_value serialize_payload put_uint32
deserialize_payload-serialize_payload_example =
    deserialize_payload-serialize_payload codecs settings (7 ∷ []) (0 ∷ 0 ∷ 0 ∷ 2 ∷ 1 ∷ 7 ∷ []) []
      schema refl refl refl

deserialize_payload_of_short_example :
    is_ok (deserialize_payload codecs SchemaType.json (9 ∷ 9 ∷ []) (0 ∷ 1 ∷ 2 ∷ [])) ≡ false
deserialize_payload_of_short_example =
    deserialize_payload_of_short codecs SchemaType.json (9 ∷ 9 ∷ []) (0 ∷ 1 ∷ 2 ∷ []) (omega arith)

-- One claim; its message, 12, is offered, fetched, and not published.
abbrev claimed : Group
claimed = record new_group { claims = Claim.selecting ∷ [] }

abbrev offered : Group
offered = record new_group { claims = Claim.offering 12 ∷ [] }

abbrev handled : Group
handled = record new_group { claims = Claim.awaiting 12 ∷ []; listener = Listener.handling 12 }

abbrev stalled : Group
stalled = record new_group { claims = Claim.awaiting 12 ∷ [] }

abbrev only : {c c' : Claim} {s : Group} → s.claims ≡ c ∷ [] → Moves c c' s
only e = record { before = []; behind = []; there = e }

stalled-Steps : Steps new_group 1 stalled
unfolding new_group offer losses
stalled-Steps =
    Steps.next {t = handled}
      (Steps.next {t = offered}
        (Steps.next {t = claimed} (Steps.next Steps.here (Step.claims_one refl))
          (Step.arrives 12 (only refl) refl))
        (Step.fetched 12 (only refl) refl refl))
      (Step.publish_fails 12 refl refl)

waiting_lem_example :
    (stalled.channels_open ≡ false) ⊎ (waiting stalled.claims ≡ 1 + in_hand stalled.listener)
waiting_lem_example = waiting_lem 1 stalled stalled-Steps

-- Two partitions.
abbrev counters : Counters
counters = (0 ∷ 0 ∷ 0 ∷ 0 ∷ [], 5) ∷ (0 ∷ 0 ∷ 0 ∷ 1 ∷ [], 3) ∷ []

find_partition_with_min_bytes_minimal_example :
    Any
      (λ x. (x.0 ≡ find_partition_with_min_bytes counters) × All (λ y. x.1 ≤ y.1) counters)
      counters
find_partition_with_min_bytes_minimal_example =
    find_partition_with_min_bytes_minimal (0 ∷ 0 ∷ 0 ∷ 0 ∷ [], 5) ((0 ∷ 0 ∷ 0 ∷ 1 ∷ [], 3) ∷ [])
      (omega arith, (omega arith, tt))

counters-IsCounted : IsCounted 2 counters
unfolding IsCounted Numbered put_uint32
counters-IsCounted = (refl, (refl, (refl, tt)))

as_they_are : IsArrangement (λ s. s)
as_they_are = record { entries = λ s e a. a; kept = λ s. refl }

partition_lem_example :
    (p : ℕ) × (s' : Counters) × (partition (λ s. s) 10 3 counters ≡ ok (p, s'))
    × (p < 3)
    × IsCounted 3 s'
partition_lem_example =
    partition_lem (λ s. s) 10 2 3 counters as_they_are (omega arith) (omega arith) (omega arith)
      counters-IsCounted
