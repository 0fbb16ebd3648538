-- ===== src/Connector/Lifecycle.antt =====
-- `Start`, `Shutdown` and `CheckConnections` of the six connector types. Errors of `Unsubscribe` and
-- of closing a reader are logged or dropped by the source, and change nothing.
pub mod Laws
use nats_kafka.Base.{
  ℕ, String, Bool, true, false, [], Option, none, some, str_eq, if◌then◌else◌, ◌||◌, not,
}
use nats_kafka.Base.Outcome.{Outcome, ok, fail, panic, message, wrapped, guard}
use nats_kafka.Conf.{BridgeConfig}
use nats_kafka.Nats.{Answers}
use nats_kafka.Bridge.Cells.{Cells, check_nats_for, check_stan, check_jet_stream_for}
use nats_kafka.Stats.Holder.{add_connect, add_disconnect}
use nats_kafka.Connector.{Kind, Connector, cluster_of}
use nats_kafka.Connector.Subscribe.{
  Broker, subscribe_to_nats, subscribe_to_channel, subscribe_to_jet_stream,
}

-- The connection that a type of connector depends on.
unfoldable pub is_available : Answers → Cells → Connector → Bool
is_available a s c = elim c.kind [
  | Kind.nats2kafka ↦ check_nats_for a s (cluster_of c)
  | Kind.stan2kafka ↦ check_stan a s
  | Kind.jet_stream2kafka ↦ check_jet_stream_for a s (cluster_of c)
  | Kind.kafka2nats ↦ check_nats_for a s (cluster_of c)
  | Kind.kafka2stan ↦ check_stan a s
  | Kind.kafka2jet_stream ↦ check_jet_stream_for a s (cluster_of c)
]

pub check_connections : Answers → Cells → Connector → Outcome (Unit {0})
check_connections a s c =
    guard (is_available a s c) (message "%s connector requires its connection to be available")

-- A connector that reads from NATS: the subscription is stored and the connect counted.
unfoldable pub subscribed : Connector → Outcome ℕ → Outcome (Unit {0}) × Connector
subscribed c (ok k) = (ok tt, record c { sub = some k; stats = add_connect c.stats })
subscribed c (fail e) = (fail e, c)
subscribed c panic = (panic, c)

-- A connector that reads from Kafka: setting up the listener returns no error.
pub listening : Connector → Outcome ℕ → Outcome (Unit {0}) × Connector
listening c (ok k) =
    (ok tt, record c { reader = some k; shutdown_cb = true; stats = add_connect c.stats })
listening c (fail e) = (fail e, c)
listening c panic = (panic, c)

-- `conn.reader, err = ...`: on an error the reader is nil.
pub listening_or_nil : Connector → Outcome ℕ → Outcome (Unit {0}) × Connector
unfolding listening
listening_or_nil c (ok k) = listening c (ok k)
listening_or_nil c (fail e) = (fail e, record c { reader = none })
listening_or_nil c panic = (panic, c)

unfoldable pub start_nats2kafka : Broker → Cells → Connector → Outcome (Unit {0}) × Connector
unfolding subscribed
start_nats2kafka k s c = subscribed c (subscribe_to_nats k s c.config)

pub start_stan2kafka : Broker → Cells → Connector → Outcome (Unit {0}) × Connector
unfolding subscribed
start_stan2kafka k s c = subscribed c (subscribe_to_channel k s c.config)

pub start_jet_stream2kafka :
    Broker → BridgeConfig → Cells → Connector → Outcome (Unit {0}) × Connector
unfolding subscribed
start_jet_stream2kafka k b s c = subscribed c (subscribe_to_jet_stream k b s c.config)

pub start_kafka2nats : Broker → BridgeConfig → Connector → Outcome (Unit {0}) × Connector
unfolding listening
start_kafka2nats k b c = listening c (k.new_consumer c.config b.connect_timeout)

pub start_kafka2stan : Broker → BridgeConfig → Connector → Outcome (Unit {0}) × Connector
unfolding listening_or_nil
start_kafka2stan k b c =
    listening_or_nil c
      (wrapped "failed to create consumer: %w" (k.new_consumer c.config b.connect_timeout))

pub start_kafka2jet_stream : Broker → BridgeConfig → Connector → Outcome (Unit {0}) × Connector
unfolding listening_or_nil
start_kafka2jet_stream k b c =
    listening_or_nil c
      (wrapped "failed to create consumer: %w" (k.new_consumer c.config b.connect_timeout))

-- What `Start` does once its connection is available.
unfoldable pub start_kind :
    Broker → BridgeConfig → Cells → Connector → Outcome (Unit {0}) × Connector
unfolding start_nats2kafka start_stan2kafka start_jet_stream2kafka start_kafka2nats start_kafka2stan
    start_kafka2jet_stream
start_kind k b s c = elim c.kind [
  | Kind.nats2kafka ↦ start_nats2kafka k s c
  | Kind.stan2kafka ↦ start_stan2kafka k s c
  | Kind.jet_stream2kafka ↦ start_jet_stream2kafka k b s c
  | Kind.kafka2nats ↦ start_kafka2nats k b c
  | Kind.kafka2stan ↦ start_kafka2stan k b c
  | Kind.kafka2jet_stream ↦ start_kafka2jet_stream k b c
]

unfoldable pub start :
    Answers → Broker → BridgeConfig → Cells → Connector → Outcome (Unit {0}) × Connector
start a k b s c =
    if is_available a s c
    then start_kind k b s c
    else (fail (message "%s connector requires its connection to be available"), c)

-- `Shutdown` of the connectors that read from NATS. Only a STAN connector looks at the durable name.
pub close_subscription : Connector → Connector
close_subscription c = record c { sub = none }

pub shutdown_stan2kafka : Connector → Connector
unfolding close_subscription
shutdown_stan2kafka c = if not (str_eq c.config.durable_name "") then c else close_subscription c

-- `Shutdown` of the connectors that read from Kafka: the listener is stopped and the reader closed.
pub close_reader : Connector → Connector
close_reader c = record c { shutdown_cb = false; reader = none }

unfoldable pub shutdown : Connector → Connector
unfolding shutdown_stan2kafka close_subscription close_reader
shutdown c =
    let d = record c { writers = []; stats = add_disconnect c.stats } in
    elim c.kind [
      | Kind.nats2kafka ↦ close_subscription d
      | Kind.stan2kafka ↦ shutdown_stan2kafka d
      | Kind.jet_stream2kafka ↦ close_subscription d
      | Kind.kafka2nats ↦ close_reader d
      | Kind.kafka2stan ↦ close_reader d
      | Kind.kafka2jet_stream ↦ close_reader d
    ]
