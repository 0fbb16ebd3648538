-- ===== src/Bridge/Server/Starting.antt =====
-- `Start` of server/core/server.go as a whole, as one step.
pub mod Sound
use nats_kafka.Base.{ℕ, String, Bool, true, false, [], List, if◌then◌else◌, not}
use nats_kafka.Base.Outcome.{Outcome, ok, fail, panic}
use nats_kafka.Base.Dict.{Dict}
use nats_kafka.Conf.Clusters.{validate_nats_clusters}
use nats_kafka.Nats.{Answers}
use nats_kafka.Bridge.Cells.{Cell}
use nats_kafka.Bridge.Cells.Dial.{connect_to_nats, connect_to_stan, connect_to_jet_stream}
use nats_kafka.Bridge.Reconnect.{Bridge}
use nats_kafka.Bridge.Server.{Launch, initialize_connectors, start_connectors}

-- What the calls of one `Start` meet: the answers of the libraries, the order in which the map of cells
-- is visited, the identifiers of `nuid`, the connectors' turns, and the result of `startMonitoring`.
pub record Startup : Type 0 where
  pub dialling : Answers
  pub streaming : Answers
  pub contexts : Answers
  pub order : Dict Cell → Dict Cell
  pub fresh : ℕ → String
  pub launch : Launch
  pub monitoring : Outcome (Unit {0})

-- `if err := ...; err != nil { return err }`, on the state.
unfoldable pub and_then :
    Outcome (Unit {0}) × Bridge
    → (Bridge → Outcome (Unit {0}) × Bridge)
    → Outcome (Unit {0}) × Bridge
and_then (ok u, b) f = f b
and_then (fail e, b) f = (fail e, b)
and_then (panic, b) f = (panic, b)

-- The fields that `Start` sets first. A timer of an earlier run was stopped by `Stop`.
unfoldable pub reset : Bridge → Bridge
reset b = record b { running = true; connectors = []; reconnect = []; stopped = false }

unfoldable pub validate : Bridge → Outcome (Unit {0}) × Bridge
validate b = let (r, c) = validate_nats_clusters b.config in (r, record b { config = c })

unfoldable pub dial_clusters : Startup → Bridge → Outcome (Unit {0}) × Bridge
dial_clusters u b =
    if not b.running
    then (ok tt, b)
    else (let (r, s) = connect_to_nats u.dialling b.config u.order b.net in
        (r, record b { net = s }))

unfoldable pub dial_stan : Startup → Bridge → Outcome (Unit {0}) × Bridge
dial_stan u b = let (r, s) = connect_to_stan u.streaming b.config b.net in (r, record b { net = s })

unfoldable pub make_contexts : Startup → Bridge → Outcome (Unit {0}) × Bridge
make_contexts u b =
    let (r, s) = connect_to_jet_stream u.contexts b.config b.net in (r, record b { net = s })

-- The calls of `Start` up to that of `connectToNATS`, `connectToSTAN`, `connectToJetStream` and
-- `initializeConnectors`.
unfoldable pub with_clusters : Startup → Bridge → Outcome (Unit {0}) × Bridge
unfolding and_then reset validate dial_clusters
with_clusters u b = and_then (validate (reset b)) (dial_clusters u)

unfoldable pub with_stan : Startup → Bridge → Outcome (Unit {0}) × Bridge
unfolding and_then with_clusters dial_stan
with_stan u b = and_then (with_clusters u b) (dial_stan u)

unfoldable pub with_contexts : Startup → Bridge → Outcome (Unit {0}) × Bridge
unfolding and_then with_stan make_contexts
with_contexts u b = and_then (with_stan u b) (make_contexts u)

unfoldable pub prepare : Startup → Bridge → Outcome (Unit {0}) × Bridge
unfolding and_then with_contexts
prepare u b = and_then (with_contexts u b) (initialize_connectors u.fresh)

unfoldable pub start_bridge : Startup → Bridge → Outcome (Unit {0}) × Bridge
unfolding and_then prepare
start_bridge u b =
    and_then (and_then (prepare u b) (start_connectors u.launch)) (λ b'. (u.monitoring, b'))
