-- ===== src/Bridge/Server/Stopping.antt =====
-- A stopped bridge stays stopped, whatever goroutines act late: no timer is set and nothing starts.
use nats_kafka.Base.{
  ℕ, zero, suc, true, false, List, [], ◌∷◌, map, some, ◌≡◌, refl, inl, inr, arith, get_elem?, set,
  All, Bool-cases, Option-cases, not, if◌then◌else◌,
}
use nats_kafka.Base.Dict.{Dict, has, insert}
use nats_kafka.Nats.{Answers}
use nats_kafka.Bridge.Cells.{Cells}
use nats_kafka.Connector.{Connector, connector_id}
use nats_kafka.Connector.Lifecycle.{shutdown}
use nats_kafka.Connector.Lifecycle.Laws.{is_active, IsShaped, is_active-shutdown, keeps_durable}
use nats_kafka.Bridge.Reconnect.{
  Bridge, ensure_reconnect_timer, stop_reconnect_timer, queue_connector, check_each, requeue,
  connector_error, stan_connection_lost, nats_disconnected, timer_fires,
}
use nats_kafka.Bridge.Server.{stop}
use nats_kafka.Bridge.Server.Steps.{Step, Steps}

abbrev pub Inert : List Connector → Type 0
Inert = All (λ c. is_active c ≡ false)

-- Stopped for good: no timer, and no connector that takes messages.
pub record IsQuiet (b : Bridge) : Type 0 where
  pub not_running : b.running ≡ false
  pub is_stopped : b.stopped ≡ true
  pub no_timer : b.timer ≡ false
  pub inert : Inert b.connectors

inert-shutdown : (c : Connector) → is_active c ≡ false → is_active (shutdown c) ≡ false
unfolding shutdown
inert-shutdown c h = ground arith

Inert-set :
    (cs : List Connector) (k : ℕ) (c : Connector)
    → get_elem? cs k ≡ some c
    → Inert cs
    → Inert (set cs k (shutdown c))
Inert-set [] k c g h = tt
Inert-set (d ∷ cs) zero c g h =
    let same : d ≡ c = ground arith in (rw (← same) (inert-shutdown d h.0), h.1)
Inert-set (d ∷ cs) (suc k) c g h = (h.0, Inert-set cs k c g h.1)

Inert-check_each :
    (a : Answers) (s : Cells) (i : ℕ) (cs : List Connector) (q : Dict ℕ)
    → Inert cs
    → Inert (check_each a s i cs q).0
unfolding check_each
Inert-check_each a s i [] q h = tt
Inert-check_each a s i (c ∷ cs) q h =
    (ground (arith, inert-shutdown c), Inert-check_each a s (suc i) cs _ h.1)

quiet_timer : (b : Bridge) → IsQuiet b → ensure_reconnect_timer b ≡ b
unfolding ensure_reconnect_timer
quiet_timer b v = ground arith

queue_connector-IsQuiet : (k : ℕ) (b : Bridge) → IsQuiet b → IsQuiet (queue_connector k b)
unfolding queue_connector
queue_connector-IsQuiet k b v = elim (Option-cases (get_elem? b.connectors k)) [
  | inl missing ↦ rw (missing, queue_connector) v
  | inr (c, found) ↦ elim (Bool-cases (has (connector_id c) b.reconnect)) [
    | inl queued ↦ rw (found, queue_connector, queued) v
    | inr new ↦
        let b' : Bridge = record b {
          connectors = set b.connectors k (shutdown c);
          reconnect = insert (connector_id c) k b.reconnect;
        } in
        let w : IsQuiet b' = record {
          not_running = v.not_running;
          is_stopped = v.is_stopped;
          no_timer = v.no_timer;
          inert = Inert-set b.connectors k c found v.inert;
        } in
        rw (found, queue_connector, new, quiet_timer b' w) w
  ]
]

requeue-IsQuiet : (a : Answers) (b : Bridge) → IsQuiet b → IsQuiet (requeue a b)
unfolding requeue
requeue-IsQuiet a b v =
    let (cs, q) = check_each a b.net 0 b.connectors b.reconnect in
    let w : IsQuiet (record b { connectors = cs; reconnect = q }) = record {
      not_running = v.not_running;
      is_stopped = v.is_stopped;
      no_timer = v.no_timer;
      inert = Inert-check_each a b.net 0 b.connectors b.reconnect v.inert;
    } in
    rw (quiet_timer (record b { connectors = cs; reconnect = q }) w) w

guarded : (b x : Bridge) → b.running ≡ false → (if not b.running then b else x) ≡ b
guarded b x h = ground arith

-- A bridge that is not running takes none of the guarded ways.
Step-IsQuiet : {b b' : Bridge} → Step b b' → IsQuiet b → IsQuiet b'
unfolding connector_error stan_connection_lost nats_disconnected stop timer_fires
Step-IsQuiet {b} (Step.connector_fails k e) v = rw (e, guarded b _ v.not_running) v
Step-IsQuiet {b} (Step.connector_failed_late k e) v = rw e (queue_connector-IsQuiet k b v)
Step-IsQuiet {b} (Step.stan_lost a e) v = rw (e, guarded b _ v.not_running) v
Step-IsQuiet {b} (Step.nats_lost a e) v = rw (e, guarded b _ v.not_running) v
Step-IsQuiet {b} (Step.checked_late a e) v = rw e (requeue-IsQuiet a b v)
Step-IsQuiet {b} {b'} (Step.fired p h) v =
    let off = v.is_stopped in
    let e : b' ≡ record b { timer = false } = ground arith in
    rw e (record {
      not_running = v.not_running;
      is_stopped = v.is_stopped;
      no_timer = refl;
      inert = v.inert;
    })
Step-IsQuiet {b} (Step.stops e) v = rw (e, guarded b _ v.not_running) v

Steps-IsQuiet : {b b' : Bridge} → IsQuiet b → Steps b b' → IsQuiet b'
Steps-IsQuiet v Steps.here = v
Steps-IsQuiet v (Steps.next r st) = Step-IsQuiet st (Steps-IsQuiet v r)

-- The connectors have the fields of their types only, and none is a STAN connector with a durable name.
abbrev pub CanStop : List Connector → Type 0
CanStop = All (λ c. IsShaped c × (keeps_durable c ≡ false))

Inert-map-shutdown : (cs : List Connector) → CanStop cs → Inert (map shutdown cs)
Inert-map-shutdown [] h = tt
Inert-map-shutdown (c ∷ cs) ((shaped, plain), h) =
    (rw (is_active-shutdown c shaped, plain), Inert-map-shutdown cs h)

stop_running :
    (b : Bridge)
    → b.running ≡ true
    → ((stop b).running ≡ false)
      × ((stop b).stopped ≡ true)
      × ((stop b).timer ≡ false)
      × ((stop b).connectors ≡ map shutdown b.connectors)
unfolding stop stop_reconnect_timer
stop_running b on = ground arith

-- Once a running bridge has been stopped, it stays stopped in every state that steps lead to, late
-- goroutines included: no timer is set, and no connector takes messages. The connectors are as their
-- types make them, and none is a STAN connector with a durable name.
pub stop_is_final :
    (b b' : Bridge) → b.running ≡ true → CanStop b.connectors → Steps (stop b) b' → IsQuiet b'
stop_is_final b b' on h steps =
    let (r, s, t, cs) = stop_running b on in
    Steps-IsQuiet
      (record {
        not_running = r;
        is_stopped = s;
        no_timer = t;
        inert = rw cs (Inert-map-shutdown b.connectors h);
      })
      steps
