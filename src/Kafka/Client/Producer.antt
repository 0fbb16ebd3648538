-- ===== src/Kafka/Client/Producer.antt =====
-- The producer of server/kafka/producer.go and the manager of server/kafka/manager.go: how they are made,
-- and the calls that they pass on.
use Prim.Native.String.{◌++◌ as append}
use nats_kafka.Base.{
  ℕ, String, Bool, false, List, Option, none, some, ◌==◌, ◌&&◌, not, str_eq, if◌then◌else◌,
}
use nats_kafka.Base.Int.{ℤ}
use nats_kafka.Base.Outcome.{Error, Outcome, ok, ◌>>=◌}
use nats_kafka.Conf.{ConnectorConfig, BridgeConfig}
use nats_kafka.Conf.Parse.{signed}
use nats_kafka.Conf.Tls.{Files}
use nats_kafka.Kafka.Payload.{SchemaType, SchemaSettings}
use nats_kafka.Kafka.Client.{SaramaConfig, producer_config, manager_config}

-- The calls of sarama, where a client is a number, and `strings.ToUpper`. `topic_error` is the code of a
-- `TopicError` that `errors.As` finds.
pub record Admin : Type 0 where
  pub new_config : SaramaConfig
  pub new_sync_producer : List String → SaramaConfig → Outcome ℕ
  pub new_cluster_admin : List String → SaramaConfig → Outcome ℕ
  pub create_topic : ℕ → String → ℤ → ℤ → Outcome (Unit {0})
  pub close_client : ℕ → Outcome (Unit {0})
  pub topic_error : Error → Option ℕ
  pub topic_already_exists : ℕ
  pub to_upper : String → String

pub is_topic_exist : Admin → Error → Bool
is_topic_exist k e = elim (k.topic_error e) [
  | none ↦ false
  | some code ↦ code == k.topic_already_exists
]

-- `saramaProducer`
pub record SaramaProducer : Type 0 where
  pub sp : ℕ
  pub topic : String
  pub sasl_on : Bool
  pub tls_on : Bool
  pub tls_skip_verify : Bool
  -- the settings of the schemas, if the registry is on
  pub schema : Option SchemaSettings

pub producer_schema : Admin → ConnectorConfig → Option SchemaSettings
producer_schema k c =
    if not (str_eq c.schema_registry_url "") && not (str_eq c.subject_name "")
    then some (record {
      subject_name = c.subject_name;
      schema_version = c.schema_version;
      schema_type =
          if str_eq (k.to_upper c.schema_type) "JSON"
          then SchemaType.json
          else if str_eq (k.to_upper c.schema_type) "PROTOBUF"
          then SchemaType.protobuf
          else SchemaType.avro;
    })
    else none

pub new_producer : Files → Admin → ConnectorConfig → BridgeConfig → String → Outcome SaramaProducer
unfolding producer_schema
new_producer f k c b topic = do
  let config : SaramaConfig = producer_config f k.new_config c b
  sp ← k.new_sync_producer c.brokers config
  ok (record {
    sp = sp;
    topic = topic;
    sasl_on = config.net.sasl_enable;
    tls_on = config.net.tls_enable;
    tls_skip_verify = c.sasl.insecure_skip_verify;
    schema = producer_schema k c;
  })

-- `NetInfo` of producer and consumer.
pub net_info : (sasl_on tls_on tls_skip_verify : Bool) → String
net_info sasl_on tls_on tls_skip_verify =
    let sasl_info : String = if sasl_on then "SASL enabled" else "SASL disabled" in
    let tls_info : String = if tls_on then "TLS enabled" else "TLS disabled" in
    append sasl_info (
      append ", " (if tls_skip_verify then append tls_info " (insecure skip verify)" else tls_info))

-- The manager is its admin client.
pub new_manager : Files → Admin → ConnectorConfig → BridgeConfig → Outcome ℕ
new_manager f k c b = k.new_cluster_admin c.brokers (manager_config f k.new_config c b)

-- The counts become an int32 and an int16.
pub create_topic : Admin → ℕ → String → ℤ → ℤ → Outcome (Unit {0})
create_topic k m topic partitions replication =
    k.create_topic m topic (signed 32 partitions) (signed 16 replication)
