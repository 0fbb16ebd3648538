-- ===== src/Bridge/Server/Invariant.antt =====
-- No connector is lost while the bridge runs, and nothing restarts once it has been stopped.
use nats_kafka.Base.{
  ℕ, Bool, true, false, List, [], ◌∷◌, map, none, some, ◌≡◌, refl, ◌⊎◌, inl, inr, arith, get_elem?,
  set, if◌then◌else◌, Bool-cases, Option-cases, ◌||◌, not,
}
use nats_kafka.Base.Outcome.{ok, >>=-eq-ok}
use nats_kafka.Base.Dict.{Dict, has, insert, has-insert_self, has-insert_of_has, All-insert}
use native.Mathlib.Nat.{zero-add}
use nats_kafka.Nats.{Answers}
use nats_kafka.Connector.{Connector, connector_id}
use nats_kafka.Connector.Lifecycle.{shutdown}
use nats_kafka.Connector.Lifecycle.Laws.{connector_id-shutdown}
use nats_kafka.Bridge.Reconnect.{
  Bridge, Pass, ensure_reconnect_timer, connector_error, queue_connector, check_each, check_all,
  requeue, stan_connection_lost, nats_disconnected, timer_fires, rearm, is_empty, stan_needed,
  restart_stan, redial_each, retry_each,
}
use nats_kafka.Bridge.Reconnect.Queue.{
  ids, HasUniqueIds, Points, NoneLost, NoneLost-set, get_elem?-ids, ids-set,
}
use nats_kafka.Bridge.Reconnect.Retry.{retry_each-Kept}
use nats_kafka.Bridge.Reconnect.Checks.{Queued, ids-check_each, All-check_each, check_each-NoneLost}
use nats_kafka.Bridge.Server.{stop}
use nats_kafka.Bridge.Server.Steps.{Step, Steps}

-- What holds of a bridge between two steps, once it has been started. As long as it has not been
-- stopped, every connector is active or queued, and a queue that is not empty has its timer.
pub record IsSound (b : Bridge) : Type 0 where
  pub unique : HasUniqueIds b.connectors
  pub points : Points b.connectors b.reconnect
  pub alive :
      (b.stopped ≡ true)
      ⊎ (NoneLost (Queued b.reconnect) b.connectors × ((b.reconnect ≡ []) ⊎ (b.timer ≡ true)))

pub ensure_reconnect_timer_lem :
    (b : Bridge)
    → ((ensure_reconnect_timer b).connectors ≡ b.connectors)
      × ((ensure_reconnect_timer b).reconnect ≡ b.reconnect)
      × ((ensure_reconnect_timer b).stopped ≡ b.stopped)
      × (((ensure_reconnect_timer b).timer ≡ true) ⊎ (b.stopped ≡ true))
unfolding ensure_reconnect_timer
ensure_reconnect_timer_lem b = ground arith

-- With its timer asked for, a bridge is sound if its connectors and its queue are.
pub ensure_reconnect_timer-IsSound :
    (b : Bridge)
    → HasUniqueIds b.connectors
    → Points b.connectors b.reconnect
    → (b.stopped ≡ true) ⊎ NoneLost (Queued b.reconnect) b.connectors
    → IsSound (ensure_reconnect_timer b)
ensure_reconnect_timer-IsSound b u p w =
    let (cs, q, st, t) = ensure_reconnect_timer_lem b in
    record { unique = rw cs u; points = rw (cs, q) p; alive = alive w t }
  where
    alive :
        (b.stopped ≡ true) ⊎ NoneLost (Queued b.reconnect) b.connectors
        → ((ensure_reconnect_timer b).timer ≡ true) ⊎ (b.stopped ≡ true)
        → ((ensure_reconnect_timer b).stopped ≡ true)
          ⊎ (NoneLost
                (Queued (ensure_reconnect_timer b).reconnect)
                (ensure_reconnect_timer b).connectors
              × (((ensure_reconnect_timer b).reconnect ≡ [])
                  ⊎ ((ensure_reconnect_timer b).timer ≡ true)))
    alive (inl s) t = inl (rw (ensure_reconnect_timer_lem b).2 s)
    alive (inr w) (inr s) = inl (rw (ensure_reconnect_timer_lem b).2 s)
    alive (inr w) (inl t) =
        inr (rw ((ensure_reconnect_timer_lem b).0, (ensure_reconnect_timer_lem b).1) w, inr t)

HasUniqueIds-ids : (cs ds : List Connector) → ids ds ≡ ids cs → HasUniqueIds cs → HasUniqueIds ds
HasUniqueIds-ids cs ds e u = record { at = rw e u.at }

Points-ids : (cs ds : List Connector) (q : Dict ℕ) → ids ds ≡ ids cs → Points cs q → Points ds q
Points-ids cs ds q e p = rw e p

-- The part of `alive` that the queue and the connectors have to satisfy.
accounted :
    (b : Bridge) → IsSound b → (b.stopped ≡ true) ⊎ NoneLost (Queued b.reconnect) b.connectors
accounted b v = elim v.alive [ inl s ↦ inl s | inr (w, t) ↦ inr w ]

requeue-IsSound : (a : Answers) (b : Bridge) → IsSound b → IsSound (requeue a b)
unfolding requeue
requeue-IsSound a b v =
    let e = ids-check_each a b.net 0 b.connectors b.reconnect in
    ensure_reconnect_timer-IsSound
      (record b {
        connectors = (check_each a b.net 0 b.connectors b.reconnect).0;
        reconnect = (check_each a b.net 0 b.connectors b.reconnect).1;
      })
      (HasUniqueIds-ids b.connectors _ e v.unique)
      (Points-ids b.connectors _ _ e (
        All-check_each a b.net (λ x. get_elem? (ids b.connectors) x.1 ≡ some x.0) 0 b.connectors
          b.reconnect (λ j n g. rw zero-add g) v.points))
      (elim (accounted b v) [
        | inl s ↦ inl s
        | inr w ↦ inr (check_each-NoneLost a b.net 0 b.connectors b.reconnect w)
      ])

queue_connector-IsSound : (k : ℕ) (b : Bridge) → IsSound b → IsSound (queue_connector k b)
unfolding queue_connector
queue_connector-IsSound k b v = elim (Option-cases (get_elem? b.connectors k)) [
  | inl missing ↦ rw (missing, queue_connector) v
  | inr (c, found) ↦ elim (Bool-cases (has (connector_id c) b.reconnect)) [
    | inl queued ↦ rw (found, queue_connector, queued) v
    | inr new ↦ rw (found, queue_connector, new) (added c found)
  ]
]
  where
    added :
        (c : Connector)
        → get_elem? b.connectors k ≡ some c
        → IsSound (
            ensure_reconnect_timer (record b {
              connectors = set b.connectors k (shutdown c);
              reconnect = insert (connector_id c) k b.reconnect;
            }))
    added c found =
        let e = ids-set b.connectors k c (shutdown c) found (connector_id-shutdown c) in
        let q = insert (connector_id c) k b.reconnect in
        ensure_reconnect_timer-IsSound
          (record b { connectors = set b.connectors k (shutdown c); reconnect = q })
          (HasUniqueIds-ids b.connectors _ e v.unique)
          (Points-ids b.connectors _ q e (
            All-insert (λ x. get_elem? (ids b.connectors) x.1 ≡ some x.0) (connector_id c) k
              b.reconnect (get_elem?-ids b.connectors k c found) v.points))
          (elim (accounted b v) [
            | inl s ↦ inl s
            | inr w ↦ inr (
                NoneLost-set {P = Queued b.reconnect} {Q = Queued q} b.connectors k c (shutdown c)
                  v.unique found (connector_id-shutdown c)
                  (inr (has-insert_self (connector_id c) k b.reconnect))
                  (λ n ne h. has-insert_of_has (connector_id c) n k b.reconnect h) w)
          ])

-- The parts of a pass of the timer that returns.
fired_parts :
    (p : Pass) (b b' : Bridge)
    → b.stopped ≡ false
    → timer_fires p b ≡ ok b'
    → (s : _) × (d : _) × (r : _) × (retry_each p b.config d b.reconnect b.connectors s ≡ ok r)
      × (b' ≡ rearm (record b { connectors = r.0; reconnect = r.1; net = r.2; timer = false }))
unfolding timer_fires
fired_parts p b b' running h =
    let (s, e, h1) =
      >>=-eq-ok (restart_stan p.stan_answers b.config b.net) _ (rw (running, timer_fires) at h) in
    let (d, e', h2) = >>=-eq-ok (redial_each p b.config b.connectors b.reconnect [] s) _ h1 in
    let (r, e'', h3) = >>=-eq-ok (retry_each p b.config d.0 b.reconnect b.connectors d.1) _ h2 in
    (d.1, d.0, r, e'', ground arith)

rearm-IsSound :
    (b : Bridge)
    → HasUniqueIds b.connectors
    → Points b.connectors b.reconnect
    → NoneLost (Queued b.reconnect) b.connectors
    → IsSound (rearm b)
unfolding rearm
rearm-IsSound b u p w = elim (Bool-cases (not (is_empty b.reconnect) || stan_needed b)) [
  | inl some_left ↦ rw some_left (ensure_reconnect_timer-IsSound b u p (inr w))
  | inr done ↦
      rw done
        (record { unique = u; points = p; alive = inr (w, inl (none_left b.reconnect _ done)) })
]
  where
    none_left : (q : Dict ℕ) (t : Bool) → (not (is_empty q) || t) ≡ false → q ≡ []
    none_left [] t h = refl
    none_left (e ∷ q) t h = cc

timer_fires-IsSound : (p : Pass) (b b' : Bridge) → IsSound b → timer_fires p b ≡ ok b' → IsSound b'
timer_fires-IsSound p b b' v h = elim (Bool-cases b.stopped) [
  | inl off ↦
      let e : b' ≡ record b { timer = false } = unfold timer_fires in ground arith in
      rw e (record { unique = v.unique; points = v.points; alive = inl off })
  | inr on ↦ passed on (elim v.alive [ inl off ↦ cc | inr (w, t) ↦ w ])
]
  where
    passed : b.stopped ≡ false → NoneLost (Queued b.reconnect) b.connectors → IsSound b'
    passed on w =
        let (s, d, r, e, e') = fired_parts p b b' on h in
        let kept =
          retry_each-Kept p b.config d (λ n. ⊥) b.reconnect b.connectors r.0 r.1 s r.2 v.unique
            v.points
            (record { at = λ i c g. elim (w.at i c g) [ inl a ↦ inl a | inr x ↦ inr (inr x) ] })
            e in
        rw e' (
          rearm-IsSound (record b { connectors = r.0; reconnect = r.1; net = r.2; timer = false })
            (HasUniqueIds-ids b.connectors r.0 kept.same_ids v.unique) kept.points
            (record {
              at = λ i c g. elim (kept.none_lost.at i c g) [
                | inl a ↦ inl a
                | inr (inl x) ↦ absurd x
                | inr (inr x) ↦ inr x
              ];
            }))

ids-map-shutdown : (cs : List Connector) → ids (map shutdown cs) ≡ ids cs
ids-map-shutdown [] = refl
ids-map-shutdown (c ∷ cs) = cc (connector_id-shutdown c, ids-map-shutdown cs)

if-IsSound : (t : Bool) (x y : Bridge) → IsSound x → IsSound y → IsSound (if t then x else y)
if-IsSound true x y vx vy = vx
if-IsSound false x y vx vy = vy

stop-IsSound : (b : Bridge) → IsSound b → IsSound (stop b)
unfolding stop
stop-IsSound b v = if-IsSound (not b.running) b _ v (record {
  unique = HasUniqueIds-ids b.connectors _ (ids-map-shutdown b.connectors) v.unique;
  points = tt;
  alive = inl refl;
})

check_all-IsSound : (a : Answers) (b : Bridge) → IsSound b → IsSound (check_all a b)
unfolding check_all
check_all-IsSound a b v = if-IsSound (not b.running) b _ v (requeue-IsSound a b v)

-- Whatever happens, in whatever order, a sound bridge stays sound.
pub Step-IsSound : {b b' : Bridge} → Step b b' → IsSound b → IsSound b'
unfolding connector_error stan_connection_lost nats_disconnected
Step-IsSound {b} (Step.connector_fails k e) v =
    rw e (if-IsSound (not b.running) b _ v (queue_connector-IsSound k b v))
Step-IsSound {b} (Step.connector_failed_late k e) v = rw e (queue_connector-IsSound k b v)
Step-IsSound {b} (Step.stan_lost a e) v = rw e (
    if-IsSound (not b.running) b _ v (
      check_all-IsSound a (record b { net = record b.net { stan = none } })
        (record { unique = v.unique; points = v.points; alive = v.alive })))
Step-IsSound {b} (Step.nats_lost a e) v =
    rw e (if-IsSound (not b.running) b _ v (check_all-IsSound a b v))
Step-IsSound {b} (Step.checked_late a e) v = rw e (requeue-IsSound a b v)
Step-IsSound {b} {b'} (Step.fired p h) v = timer_fires-IsSound p b b' v h
Step-IsSound {b} (Step.stops e) v = rw e (stop-IsSound b v)

pub Steps-IsSound : {b b' : Bridge} → IsSound b → Steps b b' → IsSound b'
Steps-IsSound v Steps.here = v
Steps-IsSound v (Steps.next r st) = Step-IsSound st (Steps-IsSound v r)
