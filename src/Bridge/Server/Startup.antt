-- ===== src/Bridge/Server/Startup.antt =====
-- After `startConnectors` has returned without an error, no connector is lost: the state from which
-- the steps go on is sound.
use nats_kafka.Base.{
  ℕ, suc, ◌+◌, String, Bool, true, false, List, [], ◌∷◌, some, ◌≡◌, refl, ap, ◌∙◌, subst, ◌⊎◌, inl,
  inr, arith, get_elem?, All, str_eq, Bool-cases, if◌then◌else◌,
}
use native.Mathlib.Nat.{zero-add}
use nats_kafka.Base.Outcome.{ok, Outcome-cases}
use nats_kafka.Base.Dict.{Dict, has, insert, has-insert_self, has-insert_of_has, All-insert}
use nats_kafka.Conf.{BridgeConfig}
use nats_kafka.Bridge.Cells.{Cells}
use nats_kafka.Connector.{Connector, connector_id, cluster_of}
use nats_kafka.Connector.Lifecycle.{start}
use nats_kafka.Connector.Lifecycle.Laws.{is_active, start_keeps, start_ok}
use nats_kafka.Bridge.Reconnect.{Bridge, ensure_reconnect_timer}
use nats_kafka.Bridge.Reconnect.Queue.{ids, HasUniqueIds, Points, NoneLost, NoneLost-cons}
use nats_kafka.Bridge.Reconnect.Checks.{Queued}
use nats_kafka.Bridge.Server.{Launch, launch_each, start_connectors, is_empty}
use nats_kafka.Bridge.Server.Steps.{Steps}
use nats_kafka.Bridge.Server.Invariant.{
  ensure_reconnect_timer_lem, IsSound, ensure_reconnect_timer-IsSound, Steps-IsSound,
}

module _ (l : Launch) (b : BridgeConfig) (s : Cells) where
  -- What a launch that ends without an error makes of connectors and queue.
  pub record IsLaunched (P : String × ℕ → Type 0) (cs cs' : List Connector) (q q' : Dict ℕ)
      : Type 0 where
    pub same_ids : ids cs' ≡ ids cs
    pub entries : All P q'
    pub grown : (n : String) → has n q ≡ true → has n q' ≡ true
    pub none_lost : NoneLost (Queued q') cs'

  IsLaunched-one :
      (P : String × ℕ → Type 0) (c c' : Connector) (cs cs' : List Connector) (q q1 q' : Dict ℕ)
      → connector_id c' ≡ connector_id c
      → (is_active c' ≡ true) ⊎ (has (connector_id c') q1 ≡ true)
      → ((n : String) → has n q ≡ true → has n q1 ≡ true)
      → IsLaunched P cs cs' q1 q'
      → IsLaunched P (c ∷ cs) (c' ∷ cs') q q'
  IsLaunched-one P c c' cs cs' q q1 q' same now grows r = record {
    same_ids = cc (same, r.same_ids);
    entries = r.entries;
    grown = λ n h. r.grown n (grows n h);
    none_lost =
        NoneLost-cons c' cs'
          (elim now [ inl a ↦ inl a | inr x ↦ inr (r.grown (connector_id c') x) ]) r.none_lost;
  }

  launch_each-IsLaunched :
      (P : String × ℕ → Type 0) (i : ℕ) (cs : List Connector) (q : Dict ℕ)
      → ((j : ℕ) (n : String) → get_elem? (ids cs) j ≡ some n → P (n, i + j))
      → All P q
      → (launch_each l b s i cs q).0 ≡ ok tt
      → IsLaunched P cs (launch_each l b s i cs q).1 q (launch_each l b s i cs q).2
  unfolding launch_each
  launch_each-IsLaunched P i [] q at h e = record {
    same_ids = refl;
    entries = h;
    grown = λ n x. x;
    none_lost = record { at = λ j c g. cc };
  }
  launch_each-IsLaunched P i (c ∷ cs) q at h e =
      let a = l.answers (connector_id c) in
      let k = l.broker (connector_id c) in
      let (kind, config, same) = start_keeps a k b s c in
      let later : (j : ℕ) (n : String) → get_elem? (ids cs) j ≡ some n → P (n, suc i + j) =
        λ j n g. subst (λ m. P (n, m)) (omega arith) (at (suc j) n g) in
      elim (Outcome-cases (start a k b s c).0) [
        | inl (u, up) ↦
            rw (up, launch_each)
              (IsLaunched-one P c (start a k b s c).1 cs _ q q _ same
                (inl (start_ok a k b s c up).1) (λ n x. x)
                (launch_each-IsLaunched P (suc i) cs q later h (rw (up, launch_each) at e)))
        | inr (inl (x, down)) ↦ elim (Bool-cases (str_eq (cluster_of c) "")) [
          | inl default ↦ cc (rw (down, launch_each, default) at e)
          | inr named ↦
              let q1 = insert (connector_id c) i q in
              rw (down, launch_each, named)
                (IsLaunched-one P c (start a k b s c).1 cs _ q q1 _ same
                  (inr (rw same (has-insert_self (connector_id c) i q)))
                  (λ n y. has-insert_of_has (connector_id c) n i q y)
                  (launch_each-IsLaunched P (suc i) cs q1 later
                    (All-insert P (connector_id c) i q
                      (subst (λ m. P (connector_id c, m)) (omega arith)
                        (at 0 (connector_id c) refl))
                      h)
                    (rw (down, launch_each, named) at e)))
        ]
        | inr (inr gone) ↦ cc (rw (gone, launch_each) at e)
      ]

-- From connectors with distinct identifiers and an empty queue, `startConnectors` without an error
-- leaves a sound bridge.
pub start_connectors-IsSound :
    (l : Launch) (b : Bridge)
    → HasUniqueIds b.connectors
    → b.reconnect ≡ []
    → (start_connectors l b).0 ≡ ok tt
    → IsSound (start_connectors l b).1
unfolding start_connectors
start_connectors-IsSound l b u empty e = by_queue _ refl
  where
    Entry : String × ℕ → Type 0
    Entry x = get_elem? (ids b.connectors) x.1 ≡ some x.0

    r :
        IsLaunched l b.config b.net Entry b.connectors
          (launch_each l b.config b.net 0 b.connectors b.reconnect).1
          b.reconnect
          (launch_each l b.config b.net 0 b.connectors b.reconnect).2
    r =
        launch_each-IsLaunched l b.config b.net Entry 0 b.connectors b.reconnect
          (λ j n g. rw zero-add g) (rw empty tt) e

    b' : Bridge
    b' = record b {
      connectors = (launch_each l b.config b.net 0 b.connectors b.reconnect).1;
      reconnect = (launch_each l b.config b.net 0 b.connectors b.reconnect).2;
    }

    unique : HasUniqueIds b'.connectors
    unique = record { at = rw r.same_ids u.at }

    points : Points b'.connectors b'.reconnect
    points = rw r.same_ids r.entries

    by_queue :
        (t : Bool)
        → is_empty b'.reconnect ≡ t
        → IsSound (if is_empty b'.reconnect then b' else ensure_reconnect_timer b')
    by_queue true h = rw h (record {
      unique = unique;
      points = points;
      alive = inr (r.none_lost, inl (none_queued b'.reconnect h));
    })
      where
        none_queued : (q : Dict ℕ) → is_empty q ≡ true → q ≡ []
        none_queued [] p = refl
        none_queued (x ∷ q) p = cc
    by_queue false h = rw h (ensure_reconnect_timer-IsSound b' unique points (inr r.none_lost))

pub ids-start_connectors :
    (l : Launch) (b : Bridge)
    → b.reconnect ≡ []
    → (start_connectors l b).0 ≡ ok tt
    → ids (start_connectors l b).1.connectors ≡ ids b.connectors
unfolding start_connectors
ids-start_connectors l b empty e =
    let r =
      launch_each-IsLaunched l b.config b.net (λ x. Unit {0}) 0 b.connectors b.reconnect
        (λ j n g. tt) (rw empty tt) e in
    let started : Bridge = record b {
      connectors = (launch_each l b.config b.net 0 b.connectors b.reconnect).1;
      reconnect = (launch_each l b.config b.net 0 b.connectors b.reconnect).2;
    } in
    elim (Bool-cases (is_empty started.reconnect)) [
      | inl none_queued ↦ rw none_queued r.same_ids
      | inr queued ↦ rw queued (ap ids (ensure_reconnect_timer_lem started).0 ∙ r.same_ids)
    ]

-- After `startConnectors` has returned without an error, from connectors with distinct identifiers
-- and an empty queue: in every state that steps lead to, in any order, until the bridge is stopped,
-- each connector is active or in the queue, and while the queue is not empty the timer that works it
-- off is set.
pub no_connector_lost :
    (l : Launch) (b b' : Bridge)
    → HasUniqueIds b.connectors
    → b.reconnect ≡ []
    → (start_connectors l b).0 ≡ ok tt
    → Steps (start_connectors l b).1 b'
    → b'.stopped ≡ false
    → NoneLost (Queued b'.reconnect) b'.connectors × ((b'.reconnect ≡ []) ⊎ (b'.timer ≡ true))
no_connector_lost l b b' u empty e steps on =
    elim (Steps-IsSound (start_connectors-IsSound l b u empty e) steps).alive [
      | inl off ↦ cc
      | inr kept ↦ kept
    ]
