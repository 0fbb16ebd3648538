-- ===== src/Connector/Lifecycle/Laws.antt =====
-- What starting and shutting down does to a connector, on every branch and for every type.
use nats_kafka.Base.{
  String, Bool, true, false, none, some, str_eq, if◌then◌else◌, not, ◌≡◌, ◌⊎◌, arith, ◌+◌,
}
use nats_kafka.Base.Outcome.{ok, fail, Error}
use nats_kafka.Conf.{BridgeConfig, ConnectorConfig}
use nats_kafka.Nats.{Answers}
use nats_kafka.Bridge.Cells.{Cells}
use nats_kafka.Stats.Holder.{add_connect, add_disconnect}
use nats_kafka.Connector.{Kind, Connector, connector_id, new_connector, create_connector}
use nats_kafka.Connector.Subscribe.{Broker}
use nats_kafka.Connector.Lifecycle.{is_available, start_kind, start, shutdown}

-- A connector takes messages while it has a subscription or its listener has not been stopped.
abbrev pub is_active : Connector → Bool
is_active c = elim c.sub [ none ↦ c.shutdown_cb | some k ↦ true ]

abbrev reads_kafka : Kind → Bool
reads_kafka k = elim k [
  | Kind.nats2kafka ↦ false
  | Kind.stan2kafka ↦ false
  | Kind.jet_stream2kafka ↦ false
  | Kind.kafka2nats ↦ true
  | Kind.kafka2stan ↦ true
  | Kind.kafka2jet_stream ↦ true
]

-- A connector has the fields of its own type only: no subscription where it reads from Kafka, and no
-- listener or reader where it reads from NATS.
abbrev pub IsShaped : Connector → Type 0
IsShaped c =
    ((reads_kafka c.kind ≡ true) × (c.sub ≡ none))
    ⊎ ((reads_kafka c.kind ≡ false) × (c.shutdown_cb ≡ false) × (c.reader ≡ none))

-- A STAN subscription with a durable name is not touched by `Shutdown`.
abbrev pub keeps_durable : Connector → Bool
keeps_durable c = elim c.kind [
  | Kind.nats2kafka ↦ false
  | Kind.stan2kafka ↦ not (str_eq c.config.durable_name "")
  | Kind.jet_stream2kafka ↦ false
  | Kind.kafka2nats ↦ false
  | Kind.kafka2stan ↦ false
  | Kind.kafka2jet_stream ↦ false
]

-- For a connector with the fields of its type only, `shutdown` ends all activity, except that a STAN
-- connector with a durable name stays as active as it was.
pub is_active-shutdown :
    (c : Connector)
    → IsShaped c
    → is_active (shutdown c) ≡ (if keeps_durable c then is_active c else false)
unfolding shutdown
is_active-shutdown c h = ground arith

pub shutdown-IsShaped : (c : Connector) → IsShaped c → IsShaped (shutdown c)
unfolding shutdown
shutdown-IsShaped c h = ground arith

pub create_connector-IsShaped :
    (fresh : String) (config : ConnectorConfig) (c : Connector)
    → create_connector fresh config ≡ ok c
    → IsShaped c × (is_active c ≡ false)
unfolding create_connector new_connector
create_connector-IsShaped fresh config c h = ground arith

module _ (a : Answers) (k : Broker) (b : BridgeConfig) (s : Cells) where
  -- `start` changes neither what a connector is nor its name.
  pub start_keeps :
      (c : Connector)
      → ((start a k b s c).1.kind ≡ c.kind)
        × ((start a k b s c).1.config ≡ c.config)
        × (connector_id (start a k b s c).1 ≡ connector_id c)
  unfolding start start_kind add_connect
  start_keeps c = ground arith

  pub start-IsShaped : (c : Connector) → IsShaped c → IsShaped (start a k b s c).1
  unfolding start start_kind
  start-IsShaped c h = ground arith

  pub start_ok :
      (c : Connector)
      → (start a k b s c).0 ≡ ok tt
      → (is_available a s c ≡ true)
        × (is_active (start a k b s c).1 ≡ true)
        × ((start a k b s c).1.stats.stats.connected ≡ true)
        × ((start a k b s c).1.stats.stats.connects ≡ c.stats.stats.connects + 1)
        × ((start a k b s c).1.stats.stats.disconnects ≡ c.stats.stats.disconnects)
  unfolding start start_kind add_connect
  start_ok c h = ground arith

  -- A start that fails leaves the statistics and the activity of the connector as they were.
  pub start_fail :
      (c : Connector) {e : Error}
      → (start a k b s c).0 ≡ fail e
      → (is_active (start a k b s c).1 ≡ is_active c) × ((start a k b s c).1.stats ≡ c.stats)
  unfolding start start_kind
  start_fail c h = ground arith

pub connector_id-shutdown : (c : Connector) → connector_id (shutdown c) ≡ connector_id c
unfolding shutdown add_disconnect
connector_id-shutdown c = ground arith
