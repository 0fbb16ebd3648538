-- ===== src/Nats.antt =====
-- What the bridge uses of nats.go and stan.go: the options that it passes, and an interface of their
-- calls. Connections are numbered; an `Answers` is what the libraries answer at one moment, so a
-- statement for every `Answers` holds whatever the servers do.
use nats_kafka.Base.{ℕ, String, List}
use nats_kafka.Base.Int.{ℤ}
use nats_kafka.Base.Outcome.{Outcome}
use nats_kafka.Conf.{NatsStreamingConfig}

-- `nats.Conn.Status`, as far as `ConnectedUrl() != ""` (connected) and `IsClosed()` tell.
pub data Status : Type 0 where
  connected reconnecting closed : Status

pub data NatsOption : Type 0 where
  name : String → NatsOption
  max_reconnects : ℤ → NatsOption
  reconnect_wait : ℤ → NatsOption
  timeout : ℤ → NatsOption
  error_handler discovered_servers_handler disconnect_handler : NatsOption
  reconnect_handler closed_handler no_callbacks_after_client_close : NatsOption
  root_cas : String → NatsOption
  client_cert : String → String → NatsOption
  user_credentials : String → NatsOption
  nkey : ℕ → NatsOption

pub data JsOption : Type 0 where
  max_wait : ℤ → JsOption
  publish_async_max_pending : ℤ → JsOption

pub record Answers : Type 0 where
  pub nkey_option_from_seed : String → Outcome ℕ
  pub connect : String → List NatsOption → Outcome ℕ
  pub jet_stream : ℕ → List JsOption → Outcome (Unit {0})
  pub stan_connect : NatsStreamingConfig → ℕ → Outcome ℕ
  pub default_discover_prefix : String
  pub status : ℕ → Status
