-- ===== src/Conf/Reflect/Range.antt =====
-- Parts of the configuration whose integers fit 64 bits can be spelt out in a file.
pub mod Whole
use nats_kafka.Base.{String, List, [], ◌∷◌, ◌≡◌, refl, All}
use nats_kafka.Base.Int.{ℤ}
use nats_kafka.Conf.{
  LoggingConfig, TlsConf, Sasl, Iam, HttpConfig, NatsConfig, NatsStreamingConfig, JetStreamConfig,
  ConnectorConfig, BridgeConfig,
}
use nats_kafka.Conf.Values.{Struct, string_type}
use nats_kafka.Conf.Slots.{primitives, structs}
use nats_kafka.Conf.Parts.{
  logging_struct, tls_struct, sasl_struct, iam_struct, http_struct, nats_struct, streaming_struct,
  jet_stream_struct,
}
use nats_kafka.Conf.Reflect.{connector_struct, bridge_struct, zero_nats, zero_connector}
use nats_kafka.Conf.Parse.{signed}
use nats_kafka.Conf.Parse.Print.{
  Fits, EachFits, AreOf, is_free, Fits-field, Fits-end, Fits_bool, Fits_string, Fits_int,
  Fits_primitives, Fits_structs, Fits-struct,
}

unfoldable pub IsInt64 : ℤ → Type 0
IsInt64 n = signed 64 n ≡ n

pub AreOf-primitives : (xs : List String) → AreOf string_type (primitives xs)
unfolding AreOf primitives
AreOf-primitives [] = tt
AreOf-primitives (x ∷ xs) = AreOf-primitives xs

pub EachFits-structs :
    {A : Type 0} (R : A → Type 0) (f : A → Struct) (p : Struct) (xs : List A)
    → ((x : A) → R x → Fits p (f x))
    → All R xs
    → EachFits p (structs f xs)
unfolding EachFits structs
EachFits-structs R f p [] fit h = tt
EachFits-structs R f p (x ∷ xs) fit h = (fit x h.0, EachFits-structs R f p xs fit h.1)

pub logging-Fits : (a c : LoggingConfig) → Fits (logging_struct a) (logging_struct c)
unfolding logging_struct is_free IsInt64
logging-Fits a c = Fits-field "Time" _ _ _ _ refl refl (Fits_bool a.time c.time) (
    Fits-field "Debug" _ _ _ _ refl refl (Fits_bool a.debug c.debug) (
      Fits-field "Trace" _ _ _ _ refl refl (Fits_bool a.trace c.trace) (
        Fits-field "Colors" _ _ _ _ refl refl (Fits_bool a.colors c.colors)
          (Fits-field "PID" _ _ _ _ refl refl (Fits_bool a.pid c.pid) (Fits-end)))))

pub tls-Fits : (a c : TlsConf) → Fits (tls_struct a) (tls_struct c)
unfolding tls_struct is_free IsInt64
tls-Fits a c = Fits-field "Key" _ _ _ _ refl refl (Fits_string a.key c.key) (
    Fits-field "Cert" _ _ _ _ refl refl (Fits_string a.cert c.cert)
      (Fits-field "Root" _ _ _ _ refl refl (Fits_string a.root c.root) (Fits-end)))

pub sasl-Fits : (a c : Sasl) → Fits (sasl_struct a) (sasl_struct c)
unfolding sasl_struct is_free IsInt64
sasl-Fits a c = Fits-field "User" _ _ _ _ refl refl (Fits_string a.user c.user) (
    Fits-field "Password" _ _ _ _ refl refl (Fits_string a.password c.password) (
      Fits-field "InsecureSkipVerify" _ _ _ _ refl refl
        (Fits_bool a.insecure_skip_verify c.insecure_skip_verify)
        (Fits-field "Mechanism" _ _ _ _ refl refl (Fits_string a.mechanism c.mechanism)
          (Fits-field "TLS" _ _ _ _ refl refl (Fits_bool a.tls c.tls) (Fits-end)))))

pub iam-Fits : (a c : Iam) → Fits (iam_struct a) (iam_struct c)
unfolding iam_struct is_free IsInt64
iam-Fits a c =
    Fits-field "Enable" _ _ _ _ refl refl (Fits_bool a.enable c.enable)
      (Fits-field "Region" _ _ _ _ refl refl (Fits_string a.region c.region) (Fits-end))

pub record HttpFits (c : HttpConfig) : Type 0 where
  pub http_port : IsInt64 c.http_port
  pub https_port : IsInt64 c.https_port
  pub read_timeout : IsInt64 c.read_timeout
  pub write_timeout : IsInt64 c.write_timeout

pub http-Fits : (a c : HttpConfig) → HttpFits c → Fits (http_struct a) (http_struct c)
unfolding http_struct is_free IsInt64
http-Fits a c h = Fits-field "HTTPHost" _ _ _ _ refl refl (Fits_string a.http_host c.http_host) (
    Fits-field "HTTPPort" _ _ _ _ refl refl (Fits_int 64 a.http_port c.http_port h.http_port) (
      Fits-field "HTTPSPort" _ _ _ _ refl refl (Fits_int 64 a.https_port c.https_port h.https_port)
        (Fits-field "TLS" _ _ _ _ refl refl
          (Fits-struct (tls_struct a.tls) (tls_struct c.tls) (tls-Fits a.tls c.tls))
          (Fits-field "ReadTimeout" _ _ _ _ refl refl
            (Fits_int 64 a.read_timeout c.read_timeout h.read_timeout)
            (Fits-field "WriteTimeout" _ _ _ _ refl refl
              (Fits_int 64 a.write_timeout c.write_timeout h.write_timeout) (Fits-end))))))

pub record NatsFits (c : NatsConfig) : Type 0 where
  pub connect_timeout : IsInt64 c.connect_timeout
  pub reconnect_wait : IsInt64 c.reconnect_wait
  pub max_reconnects : IsInt64 c.max_reconnects

pub nats-Fits : (a c : NatsConfig) → NatsFits c → Fits (nats_struct a) (nats_struct c)
unfolding nats_struct is_free IsInt64
nats-Fits a c h = Fits-field "Name" _ _ _ _ refl refl (Fits_string a.name c.name) (
    Fits-field "Servers" _ _ _ _ refl refl
      (Fits_primitives string_type (primitives a.servers) (primitives c.servers)
        (AreOf-primitives c.servers))
      (Fits-field "ClientName" _ _ _ _ refl refl (Fits_string a.client_name c.client_name) (
        Fits-field "ConnectTimeout" _ _ _ _ refl refl
          (Fits_int 64 a.connect_timeout c.connect_timeout h.connect_timeout)
          (Fits-field "ReconnectWait" _ _ _ _ refl refl
            (Fits_int 64 a.reconnect_wait c.reconnect_wait h.reconnect_wait)
            (Fits-field "MaxReconnects" _ _ _ _ refl refl
              (Fits_int 64 a.max_reconnects c.max_reconnects h.max_reconnects)
              (Fits-field "TLS" _ _ _ _ refl refl
                (Fits-struct (tls_struct a.tls) (tls_struct c.tls) (tls-Fits a.tls c.tls))
                (Fits-field "UserCredentials" _ _ _ _ refl refl
                  (Fits_string a.user_credentials c.user_credentials)
                  (Fits-field "UserNKEY" _ _ _ _ refl refl (Fits_string a.user_nkey c.user_nkey)
                    (Fits-end)))))))))

pub record StreamingFits (c : NatsStreamingConfig) : Type 0 where
  pub pub_ack_wait : IsInt64 c.pub_ack_wait
  pub max_pub_acks_inflight : IsInt64 c.max_pub_acks_inflight
  pub connect_wait : IsInt64 c.connect_wait

pub streaming-Fits :
    (a c : NatsStreamingConfig) → StreamingFits c → Fits (streaming_struct a) (streaming_struct c)
unfolding streaming_struct is_free IsInt64
streaming-Fits a c h =
    Fits-field "ClusterID" _ _ _ _ refl refl (Fits_string a.cluster_id c.cluster_id) (
      Fits-field "ClientID" _ _ _ _ refl refl (Fits_string a.client_id c.client_id) (
        Fits-field "PubAckWait" _ _ _ _ refl refl
          (Fits_int 64 a.pub_ack_wait c.pub_ack_wait h.pub_ack_wait)
          (Fits-field "DiscoverPrefix" _ _ _ _ refl refl
            (Fits_string a.discover_prefix c.discover_prefix)
            (Fits-field "MaxPubAcksInflight" _ _ _ _ refl refl
              (Fits_int 64 a.max_pub_acks_inflight c.max_pub_acks_inflight h.max_pub_acks_inflight)
              (Fits-field "ConnectWait" _ _ _ _ refl refl
                (Fits_int 64 a.connect_wait c.connect_wait h.connect_wait) (Fits-end))))))

pub record JetStreamFits (c : JetStreamConfig) : Type 0 where
  pub publish_async_max_pending : IsInt64 c.publish_async_max_pending
  pub max_wait : IsInt64 c.max_wait
  pub heartbeat_interval : IsInt64 c.heartbeat_interval

pub jet_stream-Fits :
    (a c : JetStreamConfig) → JetStreamFits c → Fits (jet_stream_struct a) (jet_stream_struct c)
unfolding jet_stream_struct is_free IsInt64
jet_stream-Fits a c h =
    Fits-field "PublishAsyncMaxPending" _ _ _ _ refl refl
      (Fits_int 64 a.publish_async_max_pending c.publish_async_max_pending
        h.publish_async_max_pending)
      (Fits-field "MaxWait" _ _ _ _ refl refl (Fits_int 64 a.max_wait c.max_wait h.max_wait) (
        Fits-field "EnableFlowControl" _ _ _ _ refl refl
          (Fits_bool a.enable_flow_control c.enable_flow_control)
          (Fits-field "EnableAckSync" _ _ _ _ refl refl
            (Fits_bool a.enable_ack_sync c.enable_ack_sync)
            (Fits-field "HeartbeatInterval" _ _ _ _ refl refl
              (Fits_int 64 a.heartbeat_interval c.heartbeat_interval h.heartbeat_interval)
              (Fits-end)))))
