-- ===== src/Examples.antt =====
-- Concrete inputs: the theorems applied to them, and what the definitions compute on them.
mod Kafka
mod Delivery
mod Bridging
mod Parsing
mod Protobuf
mod Serving
use nats_kafka.Base.{
  ℕ, ◌+◌, ◌-◌, ◌*◌, ◌/◌, ◌^◌, ltb, leb, ◌==◌, String, Bool, true, false, List, [], ◌∷◌, Option,
  none, some, inr,
}
use nats_kafka.Base.Int.{ℤ, pos}
use nats_kafka.Base.Outcome.{Error, Outcome, ok, fail, message, foreign}
use nats_kafka.Conf.{ConnectorConfig, BridgeConfig, default_bridge_config, no_tls, nats_to_kafka}
use nats_kafka.Conf.Parse.{Conversions}
use nats_kafka.Nats.{Answers, Status}
use nats_kafka.Stats.Float.{FloatOps}
use nats_kafka.Stats.Holder.{new_stats_holder}
use nats_kafka.Kafka.{Bytes, Header, Message}
use nats_kafka.Kafka.Payload.{Codecs, Schema}
use nats_kafka.Connector.{Connector, Kind}
use nats_kafka.Connector.Subscribe.{Broker}
use nats_kafka.Connector.Writer.{Gear}
use nats_kafka.Connector.Listen.{Bus}

-- Arithmetic on whole numbers, where the conversion to float64 is exact.
abbrev pub ops : FloatOps
ops = record {
  of_ℕ = λ n. n;
  literal = λ s. 10 ^ 99;
  add = λ x y. x + y;
  sub = λ x y. x - y;
  mul = λ x y. x * y;
  div = λ x y. x / y;
  lt = λ x y. ltb x y;
  le = λ x y. leb x y;
  eq = λ x y. x == y;
}

abbrev pub orders_config : ConnectorConfig
orders_config = record {
  id = "orders";
  type = nats_to_kafka;
  nats_connection = "east";
  channel = "";
  durable_name = "";
  start_at_sequence = pos 0;
  start_at_time = pos 0;
  subject = "orders";
  queue_name = "";
  stream = "";
  brokers = "kafka:9092" ∷ [];
  topic = "orders";
  tls = no_tls;
  sasl = record {
    user = "";
    password = "";
    insecure_skip_verify = false;
    mechanism = "";
    tls = false;
  };
  iam = record { enable = false; region = "" };
  min_bytes = pos 0;
  max_bytes = pos 0;
  partition = pos 0;
  group_id = "bridge";
  balancer = "";
  key_type = "fixed";
  key_value = "k";
  schema_registry_url = "";
  subject_name = "";
  schema_version = pos 0;
  schema_type = "";
}

abbrev pub bridge_config : BridgeConfig
bridge_config = default_bridge_config

abbrev pub connector : Kind → Connector
connector kind = record {
  kind = kind;
  config = orders_config;
  stats = record {
    stats = record {
      name = "orders";
      id = "orders";
      nats_connection = "east";
      connected = false;
      connects = 0;
      disconnects = 0;
      bytes_in = 0;
      bytes_out = 0;
      messages_in = 0;
      messages_out = 0;
      request_count = 0;
      moving_average = 0;
      quintile50 = 0;
      quintile75 = 0;
      quintile90 = 0;
      quintile95 = 0;
      num_pending = 0;
    };
    histogram = record { bins = []; max_bins = pos 60; total = 0 };
  };
  writers = [];
  dest_template = "orders";
  sub = none;
  reader = none;
  shutdown_cb = false;
}

-- Every call succeeds, and every connection is up.
abbrev pub answers : Answers
answers = record {
  nkey_option_from_seed = λ s. ok 0;
  connect = λ url os. ok 4;
  jet_stream = λ k os. ok tt;
  stan_connect = λ c k. ok 5;
  default_discover_prefix = "_STAN.discover";
  status = λ k. Status.connected;
}

abbrev pub broker : Broker
broker = record {
  subscribe = λ k subject queue. ok 7;
  stan_subscribe = λ k channel os. ok 7;
  js_subscribe = λ k subject queue os. ok 7;
  new_consumer = λ c t. ok 9;
}

abbrev pub schema : Schema
schema = record { id = pos 513; text = "{}" }

-- One schema; Avro text and binary are the same, and so are the two forms of protobuf.
abbrev pub codecs : Codecs
codecs = record {
  get_schema = λ n. ok schema;
  get_schema_by_version = λ s n. ok schema;
  get_latest_schema = λ s. ok schema;
  Native = Bytes;
  native_from_textual = λ s x. ok x;
  binary_from_native = λ s x. ok x;
  native_from_binary = λ s x. ok x;
  textual_from_native = λ s x. ok x;
  JsonSchema = String;
  JsonValue = Bytes;
  compile_string = λ s. ok s;
  unmarshal = λ x. ok x;
  validate = λ s x. ok tt;
  pb_serialize = λ s x. ok x;
  pb_deserialize = λ s x. ok x;
}

abbrev pub gear : (ℕ → Outcome (Unit {0})) → Gear
gear accepts = record {
  codecs = codecs;
  bytes_of = λ s. 107 ∷ [];
  decimal = λ n. n ∷ [];
  to_upper = λ s. s;
  sum256 = λ x. 1 ∷ 2 ∷ 3 ∷ 4 ∷ 5 ∷ 6 ∷ 7 ∷ [];
  find_submatch = λ p s. ok [];
  arranged = λ hs. hs;
  new_sync_producer = λ c t. inr 3;
  send_message = λ k m. accepts k;
}

abbrev pub bus : Bus
bus = record {
  dest = λ m. some "orders";
  publish = λ k p. ok tt;
  stan_publish = λ k p. ok tt;
  js_publish = λ k p. ok tt;
  commit = λ m. ok tt;
}

abbrev pub kafka_message : Message
kafka_message = record {
  topic = "orders";
  partition = pos 0;
  offset = pos 12;
  key = [];
  value = 1 ∷ 2 ∷ [];
  headers = record { key = 97 ∷ []; value = some (98 ∷ []) } ∷ [];
}

-- Texts in small letters; no text is a number.
abbrev pub conversions : Conversions
conversions = record {
  to_lower = λ s. s;
  atoi = λ s. none;
  parse_float64 = λ s. none;
  string_of_int = λ n. "?";
  float_of_int = λ n. 0;
  int_of_float = λ x. pos 0;
}
