-- ===== src/Conf/Parts.antt =====
-- The structures of server/conf/conf.go that the configurations of connectors and bridge are made of, and that
-- of server/logging/logging.go: their fields in order, by their names.
use nats_kafka.Base.{true}
use nats_kafka.Conf.{
  LoggingConfig, TlsConf, Sasl, Iam, HttpConfig, NatsConfig, NatsStreamingConfig, JetStreamConfig,
}
use nats_kafka.Conf.Values.{
  string_type, bool_slot, int_slot, string_slot, primitives_slot, struct_slot, Struct, no_field,
  field,
}
use nats_kafka.Conf.Slots.{slot_at, bool_of, int_of, string_of, struct_of, primitives, strings_of}

unfoldable pub logging_struct : LoggingConfig → Struct
logging_struct c = field "Time" "" true (bool_slot c.time) (
    field "Debug" "" true (bool_slot c.debug) (
      field "Trace" "" true (bool_slot c.trace) (
        field "Colors" "" true (bool_slot c.colors)
          (field "PID" "" true (bool_slot c.pid) (no_field)))))

unfoldable pub logging_of : Struct → LoggingConfig
unfolding slot_at
logging_of s = record {
  time = bool_of (slot_at 0 s);
  debug = bool_of (slot_at 1 s);
  trace = bool_of (slot_at 2 s);
  colors = bool_of (slot_at 3 s);
  pid = bool_of (slot_at 4 s);
}

unfoldable pub tls_struct : TlsConf → Struct
tls_struct c = field "Key" "" true (string_slot c.key) (
    field "Cert" "" true (string_slot c.cert)
      (field "Root" "" true (string_slot c.root) (no_field)))

unfoldable pub tls_of : Struct → TlsConf
unfolding slot_at
tls_of s = record {
  key = string_of (slot_at 0 s);
  cert = string_of (slot_at 1 s);
  root = string_of (slot_at 2 s);
}

unfoldable pub sasl_struct : Sasl → Struct
sasl_struct c = field "User" "" true (string_slot c.user) (
    field "Password" "" true (string_slot c.password) (
      field "InsecureSkipVerify" "" true (bool_slot c.insecure_skip_verify) (
        field "Mechanism" "" true (string_slot c.mechanism)
          (field "TLS" "" true (bool_slot c.tls) (no_field)))))

unfoldable pub sasl_of : Struct → Sasl
unfolding slot_at
sasl_of s = record {
  user = string_of (slot_at 0 s);
  password = string_of (slot_at 1 s);
  insecure_skip_verify = bool_of (slot_at 2 s);
  mechanism = string_of (slot_at 3 s);
  tls = bool_of (slot_at 4 s);
}

unfoldable pub iam_struct : Iam → Struct
iam_struct c =
    field "Enable" "" true (bool_slot c.enable)
      (field "Region" "" true (string_slot c.region) (no_field))

unfoldable pub iam_of : Struct → Iam
unfolding slot_at
iam_of s = record { enable = bool_of (slot_at 0 s); region = string_of (slot_at 1 s) }

unfoldable pub http_struct : HttpConfig → Struct
unfolding tls_struct
http_struct c = field "HTTPHost" "" true (string_slot c.http_host) (
    field "HTTPPort" "" true (int_slot 64 c.http_port) (
      field "HTTPSPort" "" true (int_slot 64 c.https_port) (
        field "TLS" "" true (struct_slot (tls_struct c.tls)) (
          field "ReadTimeout" "" true (int_slot 64 c.read_timeout)
            (field "WriteTimeout" "" true (int_slot 64 c.write_timeout) (no_field))))))

unfoldable pub http_of : Struct → HttpConfig
unfolding slot_at tls_of
http_of s = record {
  http_host = string_of (slot_at 0 s);
  http_port = int_of (slot_at 1 s);
  https_port = int_of (slot_at 2 s);
  tls = tls_of (struct_of (slot_at 3 s));
  read_timeout = int_of (slot_at 4 s);
  write_timeout = int_of (slot_at 5 s);
}

unfoldable pub nats_struct : NatsConfig → Struct
unfolding tls_struct primitives
nats_struct c = field "Name" "" true (string_slot c.name) (
    field "Servers" "" true (primitives_slot string_type (primitives c.servers)) (
      field "ClientName" "" true (string_slot c.client_name) (
        field "ConnectTimeout" "" true (int_slot 64 c.connect_timeout) (
          field "ReconnectWait" "" true (int_slot 64 c.reconnect_wait) (
            field "MaxReconnects" "" true (int_slot 64 c.max_reconnects) (
              field "TLS" "" true (struct_slot (tls_struct c.tls)) (
                field "UserCredentials" "" true (string_slot c.user_credentials)
                  (field "UserNKEY" "" true (string_slot c.user_nkey) (no_field)))))))))

unfoldable pub nats_of : Struct → NatsConfig
unfolding slot_at tls_of strings_of
nats_of s = record {
  name = string_of (slot_at 0 s);
  servers = strings_of (slot_at 1 s);
  client_name = string_of (slot_at 2 s);
  connect_timeout = int_of (slot_at 3 s);
  reconnect_wait = int_of (slot_at 4 s);
  max_reconnects = int_of (slot_at 5 s);
  tls = tls_of (struct_of (slot_at 6 s));
  user_credentials = string_of (slot_at 7 s);
  user_nkey = string_of (slot_at 8 s);
}

unfoldable pub streaming_struct : NatsStreamingConfig → Struct
streaming_struct c = field "ClusterID" "" true (string_slot c.cluster_id) (
    field "ClientID" "" true (string_slot c.client_id) (
      field "PubAckWait" "" true (int_slot 64 c.pub_ack_wait) (
        field "DiscoverPrefix" "" true (string_slot c.discover_prefix) (
          field "MaxPubAcksInflight" "" true (int_slot 64 c.max_pub_acks_inflight)
            (field "ConnectWait" "" true (int_slot 64 c.connect_wait) (no_field))))))

unfoldable pub streaming_of : Struct → NatsStreamingConfig
unfolding slot_at
streaming_of s = record {
  cluster_id = string_of (slot_at 0 s);
  client_id = string_of (slot_at 1 s);
  pub_ack_wait = int_of (slot_at 2 s);
  discover_prefix = string_of (slot_at 3 s);
  max_pub_acks_inflight = int_of (slot_at 4 s);
  connect_wait = int_of (slot_at 5 s);
}

unfoldable pub jet_stream_struct : JetStreamConfig → Struct
jet_stream_struct c =
    field "PublishAsyncMaxPending" "" true (int_slot 64 c.publish_async_max_pending) (
      field "MaxWait" "" true (int_slot 64 c.max_wait) (
        field "EnableFlowControl" "" true (bool_slot c.enable_flow_control) (
          field "EnableAckSync" "" true (bool_slot c.enable_ack_sync)
            (field "HeartbeatInterval" "" true (int_slot 64 c.heartbeat_interval) (no_field)))))

unfoldable pub jet_stream_of : Struct → JetStreamConfig
unfolding slot_at
jet_stream_of s = record {
  publish_async_max_pending = int_of (slot_at 0 s);
  max_wait = int_of (slot_at 1 s);
  enable_flow_control = bool_of (slot_at 2 s);
  enable_ack_sync = bool_of (slot_at 3 s);
  heartbeat_interval = int_of (slot_at 4 s);
}
