-- ===== src/Conf.antt =====
-- server/conf/conf.go: the configuration of the bridge. Go's `int` and `int64` fields are integers.
-- A text that the program only compares or passes on is a `String`.
pub mod Clusters
pub mod Values
pub mod Parse
pub mod Tls
pub mod Load
pub mod Slots
pub mod Parts
pub mod Reflect
use nats_kafka.Base.{ℕ, String, Bool, true, false, List, []}
use nats_kafka.Base.Int.{ℤ, pos}

-- The values of `keytype`, `balancer` and `type`.
abbrev pub fixed_key : String
fixed_key = "fixed"

abbrev pub subject_key : String
subject_key = "subject"

abbrev pub reply_to_key : String
reply_to_key = "reply"

abbrev pub subject_regex : String
subject_regex = "subjectre"

abbrev pub reply_regex : String
reply_regex = "replyre"

abbrev pub least_bytes : String
least_bytes = "leastbytes"

abbrev pub kafka_to_nats : String
kafka_to_nats = "KafkaToNATS"

abbrev pub kafka_to_stan : String
kafka_to_stan = "KafkaToStan"

abbrev pub kafka_to_jet_stream : String
kafka_to_jet_stream = "KafkaToJetStream"

abbrev pub nats_to_kafka : String
nats_to_kafka = "NATSToKafka"

abbrev pub stan_to_kafka : String
stan_to_kafka = "STANToKafka"

abbrev pub jet_stream_to_kafka : String
jet_stream_to_kafka = "JetStreamToKafka"

pub record LoggingConfig : Type 0 where
  pub time : Bool
  pub debug : Bool
  pub trace : Bool
  pub colors : Bool
  pub pid : Bool

pub record TlsConf : Type 0 where
  pub key : String
  pub cert : String
  pub root : String

pub record Sasl : Type 0 where
  pub user : String
  pub password : String
  pub insecure_skip_verify : Bool
  pub mechanism : String
  pub tls : Bool

pub record Iam : Type 0 where
  pub enable : Bool
  pub region : String

pub record HttpConfig : Type 0 where
  pub http_host : String
  pub http_port : ℤ
  pub https_port : ℤ
  pub tls : TlsConf
  pub read_timeout : ℤ
  pub write_timeout : ℤ

pub record NatsConfig : Type 0 where
  pub name : String
  pub servers : List String
  pub client_name : String
  pub connect_timeout : ℤ
  pub reconnect_wait : ℤ
  pub max_reconnects : ℤ
  pub tls : TlsConf
  pub user_credentials : String
  pub user_nkey : String

pub record NatsStreamingConfig : Type 0 where
  pub cluster_id : String
  pub client_id : String
  pub pub_ack_wait : ℤ
  pub discover_prefix : String
  pub max_pub_acks_inflight : ℤ
  pub connect_wait : ℤ

pub record JetStreamConfig : Type 0 where
  pub publish_async_max_pending : ℤ
  pub max_wait : ℤ
  pub enable_flow_control : Bool
  pub enable_ack_sync : Bool
  pub heartbeat_interval : ℤ

pub record ConnectorConfig : Type 0 where
  pub id : String
  pub type : String
  pub nats_connection : String
  pub channel : String
  pub durable_name : String
  pub start_at_sequence : ℤ
  pub start_at_time : ℤ
  pub subject : String
  pub queue_name : String
  pub stream : String
  pub brokers : List String
  pub topic : String
  pub tls : TlsConf
  pub sasl : Sasl
  pub iam : Iam
  pub min_bytes : ℤ
  pub max_bytes : ℤ
  pub partition : ℤ
  pub group_id : String
  pub balancer : String
  pub key_type : String
  pub key_value : String
  pub schema_registry_url : String
  pub subject_name : String
  pub schema_version : ℤ
  pub schema_type : String

pub record BridgeConfig : Type 0 where
  pub reconnect_interval : ℤ
  pub connect_timeout : ℤ
  pub logging : LoggingConfig
  pub nats : NatsConfig
  pub nats_clusters : List NatsConfig
  pub stan : NatsStreamingConfig
  pub jet_stream : JetStreamConfig
  pub monitoring : HttpConfig
  pub connect : List ConnectorConfig

-- A field that a Go literal leaves out has its zero value.
abbrev pub no_tls : TlsConf
no_tls = record { key = ""; cert = ""; root = "" }

abbrev pub default_bridge_config : BridgeConfig
default_bridge_config = record {
  reconnect_interval = pos 5000;
  connect_timeout = pos 10000;
  logging = record { time = true; debug = false; trace = false; colors = true; pid = false };
  nats = record {
    name = "";
    servers = [];
    client_name = "NATS Kafka Bridge";
    connect_timeout = pos 5000;
    reconnect_wait = pos 1000;
    max_reconnects = pos 0;
    tls = no_tls;
    user_credentials = "";
    user_nkey = "";
  };
  nats_clusters = [];
  stan = record {
    cluster_id = "";
    client_id = "";
    pub_ack_wait = pos 0;
    discover_prefix = "";
    max_pub_acks_inflight = pos 0;
    connect_wait = pos 0;
  };
  jet_stream = record {
    publish_async_max_pending = pos 0;
    max_wait = pos 0;
    enable_flow_control = false;
    enable_ack_sync = false;
    heartbeat_interval = pos 0;
  };
  monitoring = record {
    http_host = "";
    http_port = pos 0;
    https_port = pos 0;
    tls = no_tls;
    read_timeout = pos 5000;
    write_timeout = pos 5000;
  };
  connect = [];
}
