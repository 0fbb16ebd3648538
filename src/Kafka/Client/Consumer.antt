-- ===== src/Kafka/Client/Consumer.antt =====
-- The consumer of server/kafka/consumer.go: `NewConsumer`, `Fetch`, `Commit`, `GroupMode` and `Close`.
-- A sarama consumer, partition consumer or consumer group is a number. In group mode the goroutine that
-- `NewConsumer` starts, the channels and the claims are those of the handshake.
pub mod Laws
use nats_kafka.Base.{
  ℕ, String, Bool, true, false, List, [], ◌∷◌, ◌++◌, Option, none, some, ◌&&◌, not, str_eq, map,
  if◌then◌else◌,
}
use nats_kafka.Base.Int.{ℤ}
use nats_kafka.Base.Outcome.{Error, Outcome, ok, fail, panic, message, ◌>>=◌, ◌>>◌, or_panic}
use nats_kafka.Conf.{ConnectorConfig}
use nats_kafka.Conf.Parse.{signed}
use nats_kafka.Conf.Tls.{Files}
use nats_kafka.Kafka.{Bytes, Header, Message}
use nats_kafka.Kafka.Payload.{SchemaType, Codecs, deserialize_payload}
use nats_kafka.Kafka.Client.{NetSettings, SaramaConfig, consumer_config}

-- The calls of sarama, and `strings.ToUpper`.
pub record Sarama : Type 0 where
  pub new_config : SaramaConfig
  pub new_consumer_group : List String → String → SaramaConfig → Outcome ℕ
  pub new_consumer : List String → SaramaConfig → Outcome ℕ
  pub consume_partition : ℕ → String → ℤ → Outcome ℕ
  pub to_upper : String → String

-- The client, by its mode.
pub data Client : Type 0 where
  group : (cg : ℕ) → Client
  single : (c pc : ℕ) → Client

pub record Consumer : Type 0 where
  pub topic : String
  pub sasl_on : Bool
  pub tls_on : Bool
  pub tls_skip_verify : Bool
  -- the type of the schemas, if the registry is on
  pub schema_type : Option SchemaType
  pub client : Client

unfoldable pub consumer_schema_type : Sarama → ConnectorConfig → Option SchemaType
consumer_schema_type k c =
    if not (str_eq c.schema_registry_url "") && not (str_eq c.subject_name "")
    then some (
        if str_eq (k.to_upper c.schema_type) "JSON"
        then SchemaType.json
        else if str_eq (k.to_upper c.schema_type) "PROTOBUF"
        then SchemaType.protobuf
        else SchemaType.avro)
    else none

unfoldable pub is_group : ConnectorConfig → Bool
is_group c = not (str_eq c.group_id "")

-- The client, and the clients that were opened, the last one first.
unfoldable pub open_partition : Sarama → ConnectorConfig → ℕ → Outcome ℕ → Outcome Client × List ℕ
open_partition k c n (ok p) = (ok (Client.single n p), p ∷ n ∷ [])
open_partition k c n (fail e) = (fail e, n ∷ [])
open_partition k c n panic = (panic, n ∷ [])

unfoldable pub open_single : Sarama → ConnectorConfig → Outcome ℕ → Outcome Client × List ℕ
unfolding open_partition
open_single k c (ok n) =
    open_partition k c n (k.consume_partition n c.topic (signed 32 c.partition))
open_single k c (fail e) = (fail e, [])
open_single k c panic = (panic, [])

unfoldable pub open_group : Outcome ℕ → Outcome Client × List ℕ
open_group (ok n) = (ok (Client.group n), n ∷ [])
open_group (fail e) = (fail e, [])
open_group panic = (panic, [])

unfoldable pub open_client : Sarama → ConnectorConfig → SaramaConfig → Outcome Client × List ℕ
unfolding is_group open_single open_group
open_client k c config =
    if is_group c
    then open_group (k.new_consumer_group c.brokers c.group_id config)
    else open_single k c (k.new_consumer c.brokers config)

unfoldable pub new_consumer : Files → Sarama → ConnectorConfig → ℤ → Outcome Consumer × List ℕ
unfolding open_client consumer_schema_type
new_consumer f k c dial_timeout =
    let config : SaramaConfig = consumer_config f k.new_config c dial_timeout in
    let (r, opened) = open_client k c config in
    (
      (r >>= λ client. ok (record {
        topic = c.topic;
        sasl_on = config.net.sasl_enable;
        tls_on = config.net.tls_enable;
        tls_skip_verify = c.sasl.insecure_skip_verify;
        schema_type = consumer_schema_type k c;
        client = client;
      })),
      opened,
    )

pub group_mode : Consumer → Bool
group_mode s = elim s.client [ Client.group cg ↦ true | Client.single c pc ↦ false ]

-- What the select of `Fetch` or `Commit` meets first: the end of the context, with its error, a message
-- (none from a channel that is closed), a reader of `commitCh`, or an error of the goroutine that consumes.
pub data Event : Type 0 where
  done loop_error : Error → Event
  arrived : Option Message → Event
  handed_over : Event

module _ (k : Codecs) where
  -- A message of sarama as one of the bridge. `spare` is the memory behind the value, and sarama's headers
  -- are not nil.
  pub received : Consumer → Bytes → Message → Outcome Message
  received s spare m = elim s.schema_type [
    | none ↦ ok m
    | some t ↦ do value ← deserialize_payload k t spare m.value; ok (record m { value = value })
  ]

  -- The select of a mode; a consumer without a group has no case for errors of the loop, so it does not
  -- meet them.
  unfoldable pub fetch : Consumer → Bytes → Event → Option (Outcome Message)
  unfolding received group_mode
  fetch s spare (done e) = some (fail e)
  fetch s spare (loop_error e) = if group_mode s then some (fail e) else none
  fetch s spare (arrived m) = some (or_panic m >>= received s spare)
  fetch s spare handed_over = none

-- The message that is handed to `ConsumeClaim`, and the result. The headers are not copied.
unfoldable pub commit_message : Message → Message
commit_message m = record m { partition = signed 32 m.partition; headers = [] }

unfoldable pub commit : Consumer → Message → Event → Option (Outcome (Unit {0}) × List Message)
unfolding group_mode commit_message
commit s m e =
    if not (group_mode s)
    then some (fail (message "commit is only available in group mode"), [])
    else elim e [
      | done e ↦ some (fail e, [])
      | loop_error e ↦ some (fail e, [])
      | handed_over ↦ some (ok tt, commit_message m ∷ [])
      | arrived m ↦ none
    ]

-- `Close`, where `closes` is what closing a client returns: its result, and the clients that it closed.
-- Closing the channels is part of the handshake.
pub close : (ℕ → Outcome (Unit {0})) → Consumer → Outcome (Unit {0}) × List ℕ
close closes s = elim s.client [
  | Client.group cg ↦ (closes cg, cg ∷ [])
  | Client.single c pc ↦ elim (closes pc) [
    | ok u ↦ (closes c, pc ∷ c ∷ [])
    | fail e ↦ (fail e, pc ∷ c ∷ [])
    | panic ↦ (panic, pc ∷ [])
  ]
]
