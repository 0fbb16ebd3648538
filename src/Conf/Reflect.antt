-- ===== src/Conf/Reflect.antt =====
-- The configurations of a connector and of the bridge as reflection sees them, and the load of a file into the
-- latter: server/conf/conf.go and load.go.
pub mod Range
pub mod Laws
use nats_kafka.Base.{String, true, false, []}
use nats_kafka.Base.Int.{pos}
use nats_kafka.Base.Outcome.{Outcome}
use nats_kafka.Conf.{NatsConfig, ConnectorConfig, BridgeConfig}
use nats_kafka.Conf.Values.{
  string_type, int_slot, string_slot, primitives_slot, structs_slot, struct_slot, Struct, no_field,
  field,
}
use nats_kafka.Conf.Parse.{Conversions}
use nats_kafka.Conf.Load.{Outside, load_config_from_file}
use nats_kafka.Conf.Slots.{
  slot_at, int_of, string_of, struct_of, primitives, strings_of, structs, structs_of,
}
use nats_kafka.Conf.Parts.{
  logging_struct, logging_of, tls_struct, tls_of, sasl_struct, sasl_of, iam_struct, iam_of,
  http_struct, http_of, nats_struct, nats_of, streaming_struct, streaming_of, jet_stream_struct,
  jet_stream_of,
}

unfoldable pub connector_struct : ConnectorConfig → Struct
unfolding iam_struct sasl_struct tls_struct primitives
connector_struct c = field "ID" "" true (string_slot c.id) (
    field "Type" "" true (string_slot c.type) (
      field "NATSConnection" "" true (string_slot c.nats_connection) (
        field "Channel" "" true (string_slot c.channel) (
          field "DurableName" "" true (string_slot c.durable_name) (
            field "StartAtSequence" "" true (int_slot 64 c.start_at_sequence) (
              field "StartAtTime" "" true (int_slot 64 c.start_at_time) (
                field "Subject" "" true (string_slot c.subject) (
                  field "QueueName" "" true (string_slot c.queue_name) (
                    field "Stream" "" true (string_slot c.stream) (
                      field "Brokers" "" true (primitives_slot string_type (primitives c.brokers)) (
                        field "Topic" "" true (string_slot c.topic) (
                          field "TLS" "" true (struct_slot (tls_struct c.tls)) (
                            field "SASL" "" true (struct_slot (sasl_struct c.sasl)) (
                              field "IAM" "" true (struct_slot (iam_struct c.iam)) (
                                field "MinBytes" "" true (int_slot 64 c.min_bytes) (
                                  field "MaxBytes" "" true (int_slot 64 c.max_bytes) (
                                    field "Partition" "" true (int_slot 64 c.partition) (
                                      field "GroupID" "" true (string_slot c.group_id) (
                                        field "Balancer" "" true (string_slot c.balancer) (
                                          field "KeyType" "" true (string_slot c.key_type) (
                                            field "KeyValue" "" true (string_slot c.key_value) (
                                              field "SchemaRegistryURL" "" true
                                                (string_slot c.schema_registry_url)
                                                (field "SubjectName" "" true
                                                  (string_slot c.subject_name)
                                                  (field "SchemaVersion" "" true
                                                    (int_slot 64 c.schema_version)
                                                    (field "SchemaType" "" true
                                                      (string_slot c.schema_type)
                                                      (no_field))))))))))))))))))))))))))

unfoldable pub connector_of : Struct → ConnectorConfig
unfolding slot_at iam_of sasl_of tls_of strings_of
connector_of s = record {
  id = string_of (slot_at 0 s);
  type = string_of (slot_at 1 s);
  nats_connection = string_of (slot_at 2 s);
  channel = string_of (slot_at 3 s);
  durable_name = string_of (slot_at 4 s);
  start_at_sequence = int_of (slot_at 5 s);
  start_at_time = int_of (slot_at 6 s);
  subject = string_of (slot_at 7 s);
  queue_name = string_of (slot_at 8 s);
  stream = string_of (slot_at 9 s);
  brokers = strings_of (slot_at 10 s);
  topic = string_of (slot_at 11 s);
  tls = tls_of (struct_of (slot_at 12 s));
  sasl = sasl_of (struct_of (slot_at 13 s));
  iam = iam_of (struct_of (slot_at 14 s));
  min_bytes = int_of (slot_at 15 s);
  max_bytes = int_of (slot_at 16 s);
  partition = int_of (slot_at 17 s);
  group_id = string_of (slot_at 18 s);
  balancer = string_of (slot_at 19 s);
  key_type = string_of (slot_at 20 s);
  key_value = string_of (slot_at 21 s);
  schema_registry_url = string_of (slot_at 22 s);
  subject_name = string_of (slot_at 23 s);
  schema_version = int_of (slot_at 24 s);
  schema_type = string_of (slot_at 25 s);
}

abbrev pub zero_nats : NatsConfig
zero_nats = record {
  name = "";
  servers = [];
  client_name = "";
  connect_timeout = pos 0;
  reconnect_wait = pos 0;
  max_reconnects = pos 0;
  tls = record { key = ""; cert = ""; root = "" };
  user_credentials = "";
  user_nkey = "";
}

abbrev pub zero_connector : ConnectorConfig
zero_connector = record {
  id = "";
  type = "";
  nats_connection = "";
  channel = "";
  durable_name = "";
  start_at_sequence = pos 0;
  start_at_time = pos 0;
  subject = "";
  queue_name = "";
  stream = "";
  brokers = [];
  topic = "";
  tls = record { key = ""; cert = ""; root = "" };
  sasl = record {
    user = "";
    password = "";
    insecure_skip_verify = false;
    mechanism = "";
    tls = false;
  };
  iam = record { enable = false; region = "" };
  min_bytes = pos 0;
  max_bytes = pos 0;
  partition = pos 0;
  group_id = "";
  balancer = "";
  key_type = "";
  key_value = "";
  schema_registry_url = "";
  subject_name = "";
  schema_version = pos 0;
  schema_type = "";
}

unfoldable pub bridge_struct : BridgeConfig → Struct
unfolding connector_struct http_struct jet_stream_struct logging_struct nats_struct streaming_struct
    structs
bridge_struct c = field "ReconnectInterval" "" true (int_slot 64 c.reconnect_interval) (
    field "ConnectTimeout" "" true (int_slot 64 c.connect_timeout) (
      field "Logging" "" true (struct_slot (logging_struct c.logging)) (
        field "NATS" "" true (struct_slot (nats_struct c.nats)) (
          field "NATSClusters" "" true
            (structs_slot (nats_struct zero_nats) (structs nats_struct c.nats_clusters))
            (field "STAN" "" true (struct_slot (streaming_struct c.stan)) (
              field "JetStream" "" true (struct_slot (jet_stream_struct c.jet_stream)) (
                field "Monitoring" "" true (struct_slot (http_struct c.monitoring)) (
                  field "Connect" "" true
                    (structs_slot (connector_struct zero_connector)
                      (structs connector_struct c.connect))
                    (no_field)))))))))

unfoldable pub bridge_of : Struct → BridgeConfig
unfolding slot_at connector_of http_of jet_stream_of logging_of nats_of streaming_of structs_of
bridge_of s = record {
  reconnect_interval = int_of (slot_at 0 s);
  connect_timeout = int_of (slot_at 1 s);
  logging = logging_of (struct_of (slot_at 2 s));
  nats = nats_of (struct_of (slot_at 3 s));
  nats_clusters = structs_of nats_of (slot_at 4 s);
  stan = streaming_of (struct_of (slot_at 5 s));
  jet_stream = jet_stream_of (struct_of (slot_at 6 s));
  monitoring = http_of (struct_of (slot_at 7 s));
  connect = structs_of connector_of (slot_at 8 s);
}

-- `LoadConfigFromFile` into the configuration of the bridge.
unfoldable pub load_bridge_config :
    Conversions → Outside → String → BridgeConfig → Outcome (Unit {0}) × BridgeConfig
unfolding bridge_struct bridge_of
load_bridge_config c o file b =
    let (r, s) = load_config_from_file c o file (bridge_struct b) false in (r, bridge_of s)
