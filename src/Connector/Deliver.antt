-- ===== src/Connector/Deliver.antt =====
-- The callbacks that carry a message from NATS to Kafka (`subscribeToNATS`, `subscribeToChannel` and
-- `subscribeToJetStream` of server/core/connector.go), with `calculateKey` and the header conversion.
pub mod Laws
use nats_kafka.Base.{
  ℕ, zero, suc, String, List, [], ◌∷◌, ◌++◌, Bool, not, Option, none, some, map, length, str_eq,
  if◌then◌else◌,
}
use nats_kafka.Base.Int.{ℤ}
use nats_kafka.Base.Outcome.{Error, Outcome, ok, fail, panic, ◌>>=◌}
use nats_kafka.Conf.{
  ConnectorConfig, BridgeConfig, fixed_key, subject_key, reply_to_key, subject_regex, reply_regex,
}
use nats_kafka.Stats.Float.{FloatOps}
use nats_kafka.Stats.Holder.{StatsHolder, add_message_in, add_request, add_stream_request}
use nats_kafka.Kafka.{Bytes, Header, Message}
use nats_kafka.Connector.{Connector, Producer}
use nats_kafka.Connector.Writer.{Gear, ProducerMessage, writer, write}

-- `nats.MsgMetadata`; the time stamp is the text that it is printed as.
pub record Metadata : Type 0 where
  pub num_pending : ℕ
  pub timestamp : Bytes
  pub stream_seq : ℕ
  pub consumer_seq : ℕ

-- `nats.Msg` and `stan.Msg`; `payload` is `Data`. The values of a header can be a nil slice, `none`. `metadata` is what
-- `msg.Metadata()` answers, `none` for an error. `dest` is the connector's template executed on this
-- message, `none` for an error, and `elapsed` the nanoseconds that the callback takes.
pub record NatsMsg : Type 0 where
  pub subject : String
  pub reply : String
  pub payload : Bytes
  pub header : List (Bytes × Option (List Bytes))
  pub metadata : Option Metadata
  pub dest : Option String
  pub elapsed : ℕ

-- What a callback does outside the connector.
pub data Effect : Type 0 where
  sent : ProducerMessage → Effect
  acked ack_synced : Effect

-- The first group of the regular expression, the empty key where there is none.
pub match_key : Gear → String → String → Bytes
match_key g pattern text = elim (g.find_submatch pattern text) [
  | Outcome.ok [] ↦ []
  | Outcome.ok (whole ∷ []) ↦ []
  | Outcome.ok (whole ∷ group ∷ groups) ↦ group
  | Outcome.fail e ↦ []
  | Outcome.panic ↦ []
]

unfoldable pub calculate_key : Gear → ConnectorConfig → String → String → Bytes
unfolding match_key
calculate_key g c subject replyto =
    if str_eq c.key_type fixed_key
    then g.bytes_of c.key_value
    else if str_eq c.key_type subject_key
    then g.bytes_of subject
    else if str_eq c.key_type reply_to_key
    then g.bytes_of replyto
    else if str_eq c.key_type subject_regex
    then match_key g c.key_value subject
    else if str_eq c.key_type reply_regex
    then match_key g c.key_value replyto
    else []

-- `convertFromNatsToKafkaHeaders`: the first value of each header; `v[0]` of an empty slice panics.
unfoldable pub to_kafka_headers : List (Bytes × Option (List Bytes)) → Outcome (List Header)
to_kafka_headers [] = ok []
to_kafka_headers ((k, none) ∷ hs) = do
  rest ← to_kafka_headers hs
  ok (record { key = k; value = none } ∷ rest)
to_kafka_headers ((k, some []) ∷ hs) = panic
to_kafka_headers ((k, some (v ∷ vs)) ∷ hs) = do
  rest ← to_kafka_headers hs
  ok (record { key = k; value = some v } ∷ rest)

-- The entries of `metaMap`.
unfoldable pub meta_headers : Gear → NatsMsg → List Header
meta_headers g m =
    record { key = g.bytes_of "subject"; value = some (g.bytes_of m.subject) } ∷ elim m.metadata [
      | none ↦ []
      | some d ↦
          record { key = g.bytes_of "num_pending"; value = some (g.decimal d.num_pending) }
          ∷ record { key = g.bytes_of "timestamp"; value = some (d.timestamp) }
          ∷ record { key = g.bytes_of "stream_seq"; value = some (g.decimal d.stream_seq) }
          ∷ record { key = g.bytes_of "consumer_seq"; value = some (g.decimal d.consumer_seq) }
          ∷ []
    ]

-- `convertFromNatsToKafkaHeadersWithMetaData`
unfoldable pub to_kafka_headers_with_metadata : Gear → NatsMsg → Outcome (List Header)
unfolding to_kafka_headers meta_headers
to_kafka_headers_with_metadata g m = do
  headers ← to_kafka_headers m.header
  ok (headers ++ g.arranged (meta_headers g m))

-- `conn.dest(msg)`
abbrev pub dest_of : NatsMsg → String
dest_of m = elim m.dest [ none ↦ "" | some t ↦ t ]

-- The message that a callback writes; the other fields of `kafka.Message` keep their zero values.
unfoldable pub outgoing_message : Bytes → Bytes → List Header → Message
outgoing_message key value headers = record {
  topic = "";
  partition = ℤ.pos 0;
  offset = ℤ.pos 0;
  key = key;
  value = value;
  headers = headers;
}

counted : Connector → Outcome StatsHolder → Outcome Connector
counted c r = do stats ← r; ok (record c { stats = stats })

-- A callback: the writer is fetched first, then the message is built and written. What follows a
-- write is `succeeded`; after a failure the message is counted and nothing is acknowledged.
pub deliver :
    Gear
    → ℤ
    → NatsMsg
    → Outcome Message
    → List Effect
    → (StatsHolder → Outcome StatsHolder)
    → Connector
    → Outcome Connector × List Effect
unfolding counted
deliver g timeout m built acks count c =
    let (w, d) = writer g timeout (dest_of m) c in
    elim (built >>= write g c.config w) [
      | Outcome.ok x ↦ (counted d (count d.stats), Effect.sent x ∷ acks)
      | Outcome.fail e ↦ (ok (record d { stats = add_message_in d.stats (length m.payload) }), [])
      | Outcome.panic ↦ (panic, [])
    ]

-- The messages that the three callbacks write. A STAN message has no headers.
pub nats_message : Gear → Connector → NatsMsg → Outcome Message
unfolding calculate_key to_kafka_headers outgoing_message
nats_message g c m = do
  headers ← to_kafka_headers m.header
  ok (outgoing_message (calculate_key g c.config m.subject m.reply) m.payload headers)

pub stan_message : Gear → Connector → NatsMsg → Outcome Message
unfolding calculate_key outgoing_message
stan_message g c m = ok (
    outgoing_message (calculate_key g c.config c.config.channel c.config.durable_name) m.payload [])

unfoldable pub stream_message : Gear → Connector → NatsMsg → Outcome Message
unfolding calculate_key to_kafka_headers_with_metadata outgoing_message
stream_message g c m = do
  headers ← to_kafka_headers_with_metadata g m
  ok (
      outgoing_message (calculate_key g c.config c.config.subject c.config.durable_name) m.payload
        headers)

abbrev pub ack_of : BridgeConfig → Effect
ack_of b = if b.jet_stream.enable_ack_sync then Effect.ack_synced else Effect.acked

module _ (f : FloatOps) (g : Gear) (b : BridgeConfig) where
  abbrev pub count_request : NatsMsg → StatsHolder → Outcome StatsHolder
  count_request m h = add_request f h (length m.payload) (length m.payload) m.elapsed

  pub nats_callback : NatsMsg → Connector → Outcome Connector × List Effect
  unfolding deliver nats_message
  nats_callback m c = deliver g b.connect_timeout m (nats_message g c m) [] (count_request m) c

  pub stan_callback : NatsMsg → Connector → Outcome Connector × List Effect
  unfolding deliver stan_message
  stan_callback m c =
      deliver g b.connect_timeout m (stan_message g c m) (Effect.acked ∷ []) (count_request m) c

  -- `metaData, _ := msg.Metadata()`: the nil pointer of an error is followed, which panics.
  pub count_stream : NatsMsg → StatsHolder → Outcome StatsHolder
  count_stream m h = elim m.metadata [
    | none ↦ panic
    | some d ↦ add_stream_request f h (length m.payload) (length m.payload) m.elapsed d.num_pending
  ]

  pub jet_stream_callback : NatsMsg → Connector → Outcome Connector × List Effect
  unfolding deliver stream_message count_stream
  jet_stream_callback m c =
      deliver g b.connect_timeout m (stream_message g c m) (ack_of b ∷ []) (count_stream m) c
