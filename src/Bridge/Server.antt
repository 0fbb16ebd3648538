-- ===== src/Bridge/Server.antt =====
-- `Start` and `Stop` of server/core/server.go. Start holds the bridge's lock throughout, which keeps
-- out `ConnectorError` and the handlers of the connections. It is one step: the goroutine of a
-- reconnect timer that `startConnectors` sets is taken to wake only when Start has returned. The
-- listener of the monitoring server is not part of the state.
pub mod Steps
pub mod Invariant
pub mod Startup
pub mod Stopping
pub mod Starting
use nats_kafka.Base.{
  ℕ, zero, suc, ◌+◌, String, Bool, true, false, List, [], ◌∷◌, ◌++◌, map, none, str_eq,
  if◌then◌else◌, not,
}
use nats_kafka.Base.Outcome.{Outcome, ok, fail, panic}
use nats_kafka.Base.Dict.{Dict, insert}
use nats_kafka.Conf.{BridgeConfig, ConnectorConfig, default_bridge_config}
use nats_kafka.Conf.Clusters.{validate_nats_clusters}
use nats_kafka.Nats.{Answers}
use nats_kafka.Bridge.Cells.{Cell, Cells}
use nats_kafka.Bridge.Cells.Dial.{connect_to_nats, connect_to_stan, connect_to_jet_stream}
use nats_kafka.Bridge.Reconnect.{Bridge, ensure_reconnect_timer, stop_reconnect_timer}
use nats_kafka.Connector.{Connector, connector_id, cluster_of, create_connector}
use nats_kafka.Connector.Subscribe.{Broker}
use nats_kafka.Connector.Lifecycle.{start, shutdown}

-- A new bridge; its first configuration is all zero values, and is replaced before `Start`.
unfoldable pub new_bridge : Bridge
new_bridge = record {
  running = false;
  config = default_bridge_config;
  net = record { cells = []; stan = none };
  connectors = [];
  reconnect = [];
  timer = false;
  stopped = false;
}

-- `Stop`. It closes the connections of the cells and of STAN, which the libraries keep: what the
-- bridge holds of them is left as it is.
unfoldable pub stop : Bridge → Bridge
unfolding stop_reconnect_timer
stop b = if not b.running then b else record (stop_reconnect_timer (record b { running = false })) {
  reconnect = [];
  connectors = map shutdown b.connectors;
}

-- The loop of `initializeConnectors`; `fresh` gives the identifier of each connector that has none.
unfoldable pub create_each :
    (ℕ → String) → ℕ → List ConnectorConfig → Outcome (Unit {0}) × List Connector
create_each fresh i [] = (ok tt, [])
create_each fresh i (c ∷ cs) =
    let rest = create_each fresh (suc i) cs in
    elim (create_connector (fresh i) c) [
      | Outcome.ok x ↦ (rest.0, x ∷ rest.1)
      | Outcome.fail e ↦ (fail e, [])
      | Outcome.panic ↦ (panic, [])
    ]

unfoldable pub initialize_connectors : (ℕ → String) → Bridge → Outcome (Unit {0}) × Bridge
initialize_connectors fresh b =
    let (r, cs) = create_each fresh 0 b.config.connect in
    (r, record b { connectors = b.connectors ++ cs })

-- What a connector meets in its turn of `startConnectors`.
pub record Launch : Type 0 where
  pub answers : String → Answers
  pub broker : String → Broker

-- The loop of `startConnectors` from place `i` on: a connector of a named cluster that does not start
-- is queued, one of the default cluster ends the loop with its error.
unfoldable pub launch_each :
    Launch
    → BridgeConfig
    → Cells
    → ℕ
    → List Connector
    → Dict ℕ
    → Outcome (Unit {0}) × List Connector × Dict ℕ
launch_each l b s i [] q = (ok tt, [], q)
launch_each l b s i (c ∷ cs) q =
    let (r, c') = start (l.answers (connector_id c)) (l.broker (connector_id c)) b s c in
    elim r [
      | Outcome.ok _ ↦ let (r', cs', q') = launch_each l b s (suc i) cs q in (r', c' ∷ cs', q')
      | Outcome.fail e ↦
          if not (str_eq (cluster_of c) "")
          then (let (r', cs', q') = launch_each l b s (suc i) cs (insert (connector_id c) i q) in
              (r', c' ∷ cs', q'))
          else (fail e, c' ∷ cs, q)
      | Outcome.panic ↦ (panic, c' ∷ cs, q)
    ]

abbrev pub is_empty : Dict ℕ → Bool
is_empty [] = true
is_empty (e ∷ q) = false

-- Each connector that is queued calls `ensureReconnectTimer`.
unfoldable pub start_connectors : Launch → Bridge → Outcome (Unit {0}) × Bridge
start_connectors l b =
    let (r, cs, q) = launch_each l b.config b.net 0 b.connectors b.reconnect in
    let b' = record b { connectors = cs; reconnect = q } in
    (r, if is_empty q then b' else ensure_reconnect_timer b')
