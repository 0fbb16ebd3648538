-- ===== src/Bridge/Reconnect/Checks.antt =====
-- `checkConnections` queues what it shuts down, and loses no connector.
use nats_kafka.Base.{
  ℕ, suc, ◌+◌, String, Bool, true, false, List, [], ◌∷◌, some, ◌≡◌, refl, subst, ◌⊎◌, inl, inr,
  arith, get_elem?, All, if◌then◌else◌, eq_iff, Bool-cases, ◌||◌,
}
use nats_kafka.Base.Outcome.{is_ok}
use nats_kafka.Base.Dict.{Dict, has, insert, has-insert, All-insert}
use nats_kafka.Nats.{Answers}
use nats_kafka.Bridge.Cells.{Cells}
use nats_kafka.Connector.{Connector, connector_id}
use nats_kafka.Connector.Lifecycle.{shutdown, check_connections}
use nats_kafka.Connector.Lifecycle.Laws.{is_active, connector_id-shutdown}
use nats_kafka.Bridge.Reconnect.{check_each}
use nats_kafka.Bridge.Reconnect.Queue.{ids, NoneLost, NoneLost-cons}

abbrev pub Queued : Dict ℕ → String → Type 0
Queued q n = has n q ≡ true

module _ (a : Answers) (s : Cells) where
  -- The test of the loop: the connector is queued already, or is happy.
  abbrev skips : Connector → Dict ℕ → Bool
  skips c q = has (connector_id c) q || is_ok (check_connections a s c)

  abbrev queue_after : ℕ → Connector → Dict ℕ → Dict ℕ
  queue_after i c q = if skips c q then q else insert (connector_id c) i q

  abbrev connector_after : Connector → Dict ℕ → Connector
  connector_after c q = if skips c q then c else shutdown c

  id_after : (c : Connector) (q : Dict ℕ) → connector_id (connector_after c q) ≡ connector_id c
  id_after c q = elim (Bool-cases (skips c q)) [
    | inl skip ↦ rw skip
    | inr go_on ↦ rw go_on (connector_id-shutdown c)
  ]

  pub ids-check_each :
      (i : ℕ) (cs : List Connector) (q : Dict ℕ) → ids (check_each a s i cs q).0 ≡ ids cs
  unfolding check_each
  ids-check_each i [] q = refl
  ids-check_each i (c ∷ cs) q = cc (id_after c q, ids-check_each (suc i) cs (queue_after i c q))

  -- What is queued stays queued.
  pub has-check_each :
      (n : String) (i : ℕ) (cs : List Connector) (q : Dict ℕ)
      → has n q ≡ true
      → has n (check_each a s i cs q).1 ≡ true
  unfolding check_each
  has-check_each n i [] q h = h
  has-check_each n i (c ∷ cs) q h =
      has-check_each n (suc i) cs (queue_after i c q) (elim (Bool-cases (skips c q)) [
        | inl skip ↦ rw skip h
        | inr go_on ↦ rw go_on (rw has-insert (ground arith))
      ])

  -- The loop adds entries for the connectors that it is given, at their places.
  pub All-check_each :
      (P : String × ℕ → Type 0) (i : ℕ) (cs : List Connector) (q : Dict ℕ)
      → ((j : ℕ) (n : String) → get_elem? (ids cs) j ≡ some n → P (n, i + j))
      → All P q
      → All P (check_each a s i cs q).1
  unfolding check_each
  All-check_each P i [] q at h = h
  All-check_each P i (c ∷ cs) q at h =
      All-check_each P (suc i) cs (queue_after i c q)
        (λ j n e. subst (λ m. P (n, m)) (omega arith) (at (suc j) n e))
        (elim (Bool-cases (skips c q)) [
          | inl skip ↦ rw skip h
          | inr go_on ↦ rw go_on (
              All-insert P (connector_id c) i q
                (subst (λ m. P (connector_id c, m)) (omega arith) (at 0 (connector_id c) refl)) h)
        ])

  pub check_each-NoneLost :
      (i : ℕ) (cs : List Connector) (q : Dict ℕ)
      → NoneLost (Queued q) cs
      → NoneLost (Queued (check_each a s i cs q).1) (check_each a s i cs q).0
  unfolding check_each
  check_each-NoneLost i [] q w = record { at = λ j c e. cc }
  check_each-NoneLost i (c ∷ cs) q w =
      let q' = queue_after i c q in
      NoneLost-cons (connector_after c q) (check_each a s (suc i) cs q').0 (now (skips c q) refl)
        (check_each-NoneLost (suc i) cs q' rest)
    where
      stays : (n : String) → has n q ≡ true → has n (queue_after i c q) ≡ true
      stays n h = elim (Bool-cases (skips c q)) [
        | inl skip ↦ rw skip h
        | inr go_on ↦ rw go_on (rw has-insert (ground arith))
      ]

      later :
          (d : Connector)
          → (is_active d ≡ true) ⊎ Queued q (connector_id d)
          → (is_active d ≡ true) ⊎ Queued (queue_after i c q) (connector_id d)
      later d (inl x) = inl x
      later d (inr x) = inr (stays (connector_id d) x)

      rest : NoneLost (Queued (queue_after i c q)) cs
      rest = record { at = λ j d e. later d (w.at (suc j) d e) }

      final :
          (n : String)
          → has n (queue_after i c q) ≡ true
          → Queued (check_each a s (suc i) cs (queue_after i c q)).1 n
      final n h = has-check_each n (suc i) cs (queue_after i c q) h

      kept :
          (is_active c ≡ true) ⊎ Queued q (connector_id c)
          → (is_active c ≡ true)
            ⊎ Queued (check_each a s (suc i) cs (queue_after i c q)).1 (connector_id c)
      kept (inl x) = inl x
      kept (inr x) = inr (final (connector_id c) (stays (connector_id c) x))

      now :
          (t : Bool)
          → skips c q ≡ t
          → (is_active (connector_after c q) ≡ true)
            ⊎ Queued
                (check_each a s (suc i) cs (queue_after i c q)).1
                (connector_id (connector_after c q))
      now true e =
          let same : c ≡ connector_after c q = rw e refl in
          subst
            (λ (x : Connector).
              (is_active x ≡ true)
              ⊎ Queued (check_each a s (suc i) cs (queue_after i c q)).1 (connector_id x))
            same (kept (w.at 0 c refl))
      now false e = inr (
          final (connector_id (connector_after c q)) (
            rw (id_after, e)
              (rw has-insert (ground (arith, eq_iff (connector_id c) (connector_id c))))))
