-- ===== src/Bridge/Reconnect.antt =====
-- The connectors of the bridge and the queue of those that have to be restarted: `ConnectorError`,
-- `checkConnections`, `ensureReconnectTimer` and `stopReconnectTimer` of server/core/server.go, with
-- the handlers of server/core/nats.go that call them.
--
-- A connector is a pointer: its place in `connectors`. `timer` tells whether `reconnectTimer` is set.
-- What runs under the reconnectLock is one step.
pub mod Queue
pub mod Retry
pub mod Checks
use nats_kafka.Base.{
  ℕ, zero, suc, ◌+◌, String, Bool, true, false, List, [], ◌∷◌, Option, none, some, ◌&&◌, ◌||◌, not,
  str_eq, if◌then◌else◌, get_elem?, set,
}
use nats_kafka.Base.Outcome.{Error, Outcome, ok, fail, panic, ◌>>=◌, is_ok}
use nats_kafka.Base.Dict.{Dict, lookup, has, insert}
use nats_kafka.Conf.{BridgeConfig}
use nats_kafka.Nats.{Answers}
use nats_kafka.Bridge.Cells.{Cells, check_nats_for, check_stan}
use nats_kafka.Bridge.Cells.Dial.{connect_to_stan}
use nats_kafka.Bridge.Cells.Redial.{Surroundings, redial_cell}
use nats_kafka.Connector.{Connector, connector_id, cluster_of, requires_stan}
use nats_kafka.Connector.Subscribe.{Broker}
use nats_kafka.Connector.Lifecycle.{start, shutdown, check_connections}

pub record Bridge : Type 0 where
  pub running : Bool
  pub config : BridgeConfig
  pub net : Cells
  pub connectors : List Connector
  pub reconnect : Dict ℕ
  pub timer : Bool
  pub stopped : Bool

unfoldable pub ensure_reconnect_timer : Bridge → Bridge
ensure_reconnect_timer b = if b.timer || b.stopped then b else record b { timer = true }

unfoldable pub stop_reconnect_timer : Bridge → Bridge
stop_reconnect_timer b = record b { timer = false; stopped = true }

-- `ConnectorError` behind the test of `checkRunning`: what it does once it holds the lock.
unfoldable pub queue_connector : ℕ → Bridge → Bridge
queue_connector k b = elim (get_elem? b.connectors k) [
  | none ↦ b
  | some c ↦
      if has (connector_id c) b.reconnect
      then b
      else ensure_reconnect_timer (record b {
        connectors = set b.connectors k (shutdown c);
        reconnect = insert (connector_id c) k b.reconnect;
      })
]

unfoldable pub connector_error : ℕ → Bridge → Bridge
connector_error k b = if not b.running then b else queue_connector k b

-- The loop of `checkConnections` from place `i` on, over the rest of the connectors.
unfoldable pub check_each : Answers → Cells → ℕ → List Connector → Dict ℕ → List Connector × Dict ℕ
check_each a s i [] q = ([], q)
check_each a s i (c ∷ cs) q =
    let skip = has (connector_id c) q || is_ok (check_connections a s c) in
    let rest = check_each a s (suc i) cs (if skip then q else insert (connector_id c) i q) in
    ((if skip then c else shutdown c) ∷ rest.0, rest.1)

-- `checkConnections` behind the test of `checkRunning`.
unfoldable pub requeue : Answers → Bridge → Bridge
requeue a b =
    let (cs, q) = check_each a b.net 0 b.connectors b.reconnect in
    ensure_reconnect_timer (record b { connectors = cs; reconnect = q })

unfoldable pub check_all : Answers → Bridge → Bridge
check_all a b = if not b.running then b else requeue a b

unfoldable pub stan_connection_lost : Answers → Bridge → Bridge
stan_connection_lost a b =
    if not b.running then b else check_all a (record b { net = record b.net { stan = none } })

-- `natsDisconnected`; so is `natsClosed` of a cluster with a name.
unfoldable pub nats_disconnected : Answers → Bridge → Bridge
nats_disconnected a b = if not b.running then b else check_all a b

-- What surrounds one pass of the timer: the answers when it looks at STAN, those of the re-dial of
-- each cluster, and, for each connector in the queue, what the other goroutines have done to the
-- connections before its turn and the answers at its turn.
pub record Pass : Type 0 where
  pub stan_answers : Answers
  pub redial : String → Surroundings
  pub meanwhile : String → Cells → Cells
  pub answers : String → Answers
  pub broker : String → Broker

-- The results of `redialCell` by cluster: none is success.
abbrev pub Redialed : Type 0
Redialed = Dict (Option Error)

-- Each distinct cluster of the queue is re-dialled once, in the order of the queue.
pub redial_each :
    Pass → BridgeConfig → List Connector → Dict ℕ → Redialed → Cells → Outcome (Redialed × Cells)
redial_each p b cs [] done s = ok (done, s)
redial_each p b cs ((id, k) ∷ q) done s = elim (get_elem? cs k) [
  | none ↦ redial_each p b cs q done s
  | some c ↦
      if has (cluster_of c) done
      then redial_each p b cs q done s
      else let (r, s') = redial_cell (p.redial (cluster_of c)) b (cluster_of c) s in
        elim r [
          | Outcome.ok _ ↦ redial_each p b cs q (insert (cluster_of c) none done) s'
          | Outcome.fail e ↦ redial_each p b cs q (insert (cluster_of c) (some e) done) s'
          | Outcome.panic ↦ panic
        ]
]

-- `redialed[cluster] != nil`
unfoldable pub unreachable : Redialed → String → Bool
unreachable done cluster = elim (lookup cluster done) [
  | none ↦ false
  | some none ↦ false
  | some (some e) ↦ true
]

-- The tests in front of `connector.Start()`.
unfoldable pub may_start : Answers → Redialed → Cells → Connector → Bool
may_start a done s c =
    not (unreachable done (cluster_of c))
    && (check_nats_for a s (cluster_of c) && not (requires_stan c && not (check_stan a s)))

-- One turn of the second loop: whether the connector leaves the queue, and the connector after it.
unfoldable pub retry :
    Answers → Broker → BridgeConfig → Redialed → Cells → Connector → Outcome (Bool × Connector)
retry a k b done s c =
    if may_start a done s c
    then (let (r, c') = start a k b s c in
        elim r [
          | Outcome.ok _ ↦ ok (true, c')
          | Outcome.fail e ↦ ok (false, c')
          | Outcome.panic ↦ panic
        ])
    else ok (false, c)

pub keep_if_not : Bool → String × ℕ → Dict ℕ → Dict ℕ
keep_if_not started e q = if started then q else e ∷ q

-- The second loop over the queue: the connectors, what is left of the queue, and the connections.
pub retry_each :
    Pass
    → BridgeConfig
    → Redialed
    → Dict ℕ
    → List Connector
    → Cells
    → Outcome (List Connector × Dict ℕ × Cells)
retry_each p b done [] cs s = ok (cs, [], s)
retry_each p b done ((id, k) ∷ q) cs s = elim (get_elem? cs k) [
  | none ↦ do (cs', q', s') ← retry_each p b done q cs s; ok (cs', (id, k) ∷ q', s')
  | some c ↦ do
    let now = p.meanwhile id s
    (started, c') ← retry (p.answers id) (p.broker id) b done now c
    (cs', q', s') ← retry_each p b done q (set cs k c') now
    ok (cs', keep_if_not started (id, k) q', s')
]

-- `server.Stan() == nil && server.CheckNATS()` in front of `connectToSTAN`, whose error is logged.
pub restart_stan : Answers → BridgeConfig → Cells → Outcome Cells
restart_stan a b s = elim s.stan [
  | some k ↦ ok s
  | none ↦
      if check_nats_for a s ""
      then (let (r, s') = connect_to_stan a b s in
          elim r [ Outcome.ok _ ↦ ok s' | Outcome.fail e ↦ ok s' | Outcome.panic ↦ panic ])
      else ok s
]

abbrev pub is_empty : Dict ℕ → Bool
is_empty [] = true
is_empty (e ∷ q) = false

-- `server.config.STAN.ClusterID != "" && server.Stan() == nil`
pub stan_needed : Bridge → Bool
stan_needed b =
    not (str_eq b.config.stan.cluster_id "") && (elim b.net.stan [ none ↦ true | some k ↦ false ])

unfoldable pub rearm : Bridge → Bridge
rearm b = if not (is_empty b.reconnect) || stan_needed b then ensure_reconnect_timer b else b

-- The goroutine of `ensureReconnectTimer` once its timer has run out.
unfoldable pub timer_fires : Pass → Bridge → Outcome Bridge
timer_fires p b = if b.stopped then ok (record b { timer = false }) else do
  s ← restart_stan p.stan_answers b.config b.net
  (done, s') ← redial_each p b.config b.connectors b.reconnect [] s
  (cs, q, s'') ← retry_each p b.config done b.reconnect b.connectors s'
  ok (rearm (record b { connectors = cs; reconnect = q; net = s''; timer = false }))
