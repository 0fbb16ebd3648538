-- ===== src/Connector.antt =====
-- server/core/connector.go and the six connector files beside it: how a connector is made from its
-- configuration, started and shut down. A method that takes the connector's lock is one step.
pub mod Subscribe
pub mod Lifecycle
pub mod Writer
pub mod Deliver
pub mod Listen
use Prim.Native.String.{◌++◌ as append}
use nats_kafka.Base.{
  ℕ, String, Bool, true, false, List, [], Option, none, str_eq, if◌then◌else◌, not,
}
use nats_kafka.Base.Outcome.{Error, Outcome, ok, fail, message, ◌>>=◌, ◌>>◌, guard}
use nats_kafka.Base.Dict.{Dict}
use nats_kafka.Conf.{
  ConnectorConfig, kafka_to_nats, kafka_to_stan, kafka_to_jet_stream, nats_to_kafka, stan_to_kafka,
  jet_stream_to_kafka,
}
use nats_kafka.Stats.Holder.{StatsHolder, new_stats_holder, set_nats_connection}

-- The type of a connector, as `CreateConnector` chooses it.
pub data Kind : Type 0 where
  nats2kafka stan2kafka jet_stream2kafka kafka2nats kafka2stan kafka2jet_stream : Kind

-- A `kafka.Producer`: one that sarama made, by its number and its topic, or an `erroredProducer`.
pub data Producer : Type 0 where
  sarama : ℕ → String → Producer
  errored : Error → Producer

-- `BridgeConnector` and the fields that the connector types add: `sub` for the three that read from
-- NATS, `reader` and `shutdown_cb` for the three that read from Kafka. Subscriptions and consumers
-- are numbered. `writers` is keyed by the hash of the topic.
pub record Connector : Type 0 where
  pub kind : Kind
  pub config : ConnectorConfig
  pub stats : StatsHolder
  pub writers : Dict Producer
  pub dest_template : String
  pub sub : Option ℕ
  pub reader : Option ℕ
  pub shutdown_cb : Bool

abbrev pub connector_id : Connector → String
connector_id c = c.stats.stats.id

abbrev pub connector_name : Connector → String
connector_name c = c.stats.stats.name

abbrev pub cluster_of : Connector → String
cluster_of c = c.config.nats_connection

unfoldable pub requires_stan : Connector → Bool
requires_stan c = elim c.kind [
  | Kind.nats2kafka ↦ false
  | Kind.stan2kafka ↦ true
  | Kind.jet_stream2kafka ↦ false
  | Kind.kafka2nats ↦ false
  | Kind.kafka2stan ↦ true
  | Kind.kafka2jet_stream ↦ false
]

-- `fmt.Sprintf("%s:%s to %s:%s", ...)`
unfoldable pub titled : String → String → String → String → String
titled s a t b = append s (append ":" (append a (append " to " (append t (append ":" b)))))

-- `init`, with the identifier that `nuid.Next()` gives where the configuration has none.
unfoldable pub init_connector : String → Kind → ConnectorConfig → String → String → Connector
init_connector fresh kind config dest_tpl name =
    let full =
      if not (str_eq config.nats_connection "")
      then append "[" (append config.nats_connection (append "] " name))
      else name in
    let id = if str_eq config.id "" then fresh else config.id in
    record {
      kind = kind;
      config = config;
      stats = set_nats_connection (new_stats_holder full id) config.nats_connection;
      writers = [];
      dest_template = dest_tpl;
      sub = none;
      reader = none;
      shutdown_cb = false;
    }

-- `NewNATS2KafkaConnector` and its five companions: the destination template and the name.
unfoldable pub new_connector : String → Kind → ConnectorConfig → Connector
unfolding init_connector titled
new_connector fresh kind c = elim kind [
  | Kind.nats2kafka ↦
      init_connector fresh Kind.nats2kafka c c.topic (titled "NATS" c.subject "Kafka" c.topic)
  | Kind.stan2kafka ↦
      init_connector fresh Kind.stan2kafka c c.topic (titled "Stan" c.channel "Kafka" c.topic)
  | Kind.jet_stream2kafka ↦
      init_connector fresh Kind.jet_stream2kafka c c.topic
        (titled "JetStream" c.subject "Kafka" c.topic)
  | Kind.kafka2nats ↦
      init_connector fresh Kind.kafka2nats c c.subject (titled "Kafka" c.topic "NATS" c.subject)
  | Kind.kafka2stan ↦
      init_connector fresh Kind.kafka2stan c c.channel (titled "Kafka" c.topic "Stan" c.channel)
  | Kind.kafka2jet_stream ↦
      init_connector fresh Kind.kafka2jet_stream c c.subject
        (titled "Kafka" c.topic "JetStream" c.subject)
]

pub validate_stan_config : ConnectorConfig → Outcome (Unit {0})
validate_stan_config c =
    guard (not (str_eq c.channel ""))
      (message "STAN channel name not specified for config type %q - ID %q")

unfoldable pub create_connector : String → ConnectorConfig → Outcome Connector
unfolding validate_stan_config
create_connector fresh c =
    if str_eq c.type nats_to_kafka
    then ok (new_connector fresh Kind.nats2kafka c)
    else if str_eq c.type stan_to_kafka
    then (do validate_stan_config c; ok (new_connector fresh Kind.stan2kafka c))
    else if str_eq c.type jet_stream_to_kafka
    then ok (new_connector fresh Kind.jet_stream2kafka c)
    else if str_eq c.type kafka_to_nats
    then ok (new_connector fresh Kind.kafka2nats c)
    else if str_eq c.type kafka_to_stan
    then (do validate_stan_config c; ok (new_connector fresh Kind.kafka2stan c))
    else if str_eq c.type kafka_to_jet_stream
    then ok (new_connector fresh Kind.kafka2jet_stream c)
    else fail (message "unknown connector type %q in configuration")
