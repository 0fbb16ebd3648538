-- ===== src/Bridge/Reconnect/Retry.antt =====
-- One pass over the queue: a connector leaves it only by starting, and none is lost on the way.
use nats_kafka.Base.{
  ℕ, String, Bool, true, false, List, [], ◌∷◌, some, ◌≡◌, refl, sym, ◌∙◌, ◌⊎◌, inl, inr, arith,
  get_elem?, set, eq_iff,
}
use nats_kafka.Base.Outcome.{ok, Outcome-cases, >>=-eq-ok}
use nats_kafka.Base.Dict.{Dict, has}
use nats_kafka.Conf.{BridgeConfig}
use nats_kafka.Nats.{Answers}
use nats_kafka.Bridge.Cells.{Cells}
use nats_kafka.Connector.{Connector, connector_id}
use nats_kafka.Connector.Subscribe.{Broker}
use nats_kafka.Connector.Lifecycle.{start}
use nats_kafka.Connector.Lifecycle.Laws.{is_active, start_keeps, start_ok, start_fail}
use nats_kafka.Bridge.Reconnect.{Pass, Redialed, may_start, retry, keep_if_not, retry_each}
use nats_kafka.Bridge.Reconnect.Queue.{
  ids, HasUniqueIds, Points, NoneLost, NoneLost-set, get_elem?-of_ids, ids-set,
}

module _ (a : Answers) (k : Broker) (b : BridgeConfig) (done : Redialed) (s : Cells) where
  -- A turn that takes a connector off the queue has passed the tests and started it; any other turn
  -- leaves its activity as it was. Its identifier is kept.
  pub retry_cases :
      (c c' : Connector) (started : Bool)
      → retry a k b done s c ≡ ok (started, c')
      → (connector_id c' ≡ connector_id c)
        × (((started ≡ true) × (may_start a done s c ≡ true) × (is_active c' ≡ true))
            ⊎ ((started ≡ false) × (is_active c' ≡ is_active c)))
  unfolding retry
  retry_cases c c' started h = elim (Outcome-cases (start a k b s c).0) [
    | inl (u, e) ↦ ground (arith, start_keeps a k b s c, start_ok a k b s c e)
    | inr (inl (x, e)) ↦ ground (arith, start_keeps a k b s c, start_fail a k b s c e)
    | inr (inr e) ↦ ground (arith, start_keeps a k b s c)
  ]

module _ (p : Pass) (b : BridgeConfig) (done : Redialed) where
  -- What a pass over the queue `q` keeps: the identifiers, the meaning of the queue, and that each
  -- connector is active, queued, or satisfies `P`.
  pub record Kept (P : String → Type 0) (cs cs' : List Connector) (q' : Dict ℕ) : Type 0 where
    pub same_ids : ids cs' ≡ ids cs
    pub points : Points cs' q'
    pub none_lost : NoneLost (λ n. P n ⊎ (has n q' ≡ true)) cs'

  abbrev Queued : (String → Type 0) → Dict ℕ → String → Type 0
  Queued P q n = P n ⊎ (has n q ≡ true)

  -- The first entry is taken off, or its identifier joins what is accounted for.
  abbrev OrId : (String → Type 0) → Bool → String → String → Type 0
  OrId P true id n = P n
  OrId P false id n = P n ⊎ (n ≡ id)

  turn :
      (P : String → Type 0) (id : String) (k : ℕ) (q : Dict ℕ) (cs : List Connector)
      (c c' : Connector) (started : Bool)
      → HasUniqueIds cs
      → get_elem? cs k ≡ some c
      → connector_id c ≡ id
      → connector_id c' ≡ connector_id c
      → ((started ≡ true) × (is_active c' ≡ true))
        ⊎ ((started ≡ false) × (is_active c' ≡ is_active c))
      → NoneLost (Queued P ((id, k) ∷ q)) cs
      → NoneLost (Queued (OrId P started id) q) (set cs k c')
  unfolding has
  turn P id k q cs c c' true u g e e' r w =
      NoneLost-set cs k c c' u g e' (inl (ground arith))
        (λ n ne. carry n (λ (m : n ≡ id). ne (m ∙ sym e))) w
    where
      carry : (n : String) → ¬ (n ≡ id) → Queued P ((id, k) ∷ q) n → Queued P q n
      carry n ne (inl x) = inl x
      carry n ne (inr x) = ground (arith, eq_iff id n)
  turn P id k q cs c c' false u g e e' r w =
      NoneLost-set cs k c c' u g e' (inr (inl (inr e))) carry w
    where
      carry :
          (n : String)
          → ¬ (n ≡ connector_id c)
          → Queued P ((id, k) ∷ q) n
          → Queued (OrId P false id) q n
      carry n ne (inl x) = inl (inl x)
      carry n ne (inr x) = ground (arith, eq_iff id n)

  rejoin :
      (P : String → Type 0) (id : String) (k : ℕ) (started : Bool) (cs : List Connector)
      (q' : Dict ℕ)
      → get_elem? (ids cs) k ≡ some id
      → Points cs q'
      → NoneLost (Queued (OrId P started id) q') cs
      → Points cs (keep_if_not started (id, k) q')
        × NoneLost (Queued P (keep_if_not started (id, k) q')) cs
  unfolding keep_if_not has
  rejoin P id k true cs q' g pts w = (pts, w)
  rejoin P id k false cs q' g pts w = ((g, pts), record { at = λ i c h. back c (w.at i c h) })
    where
      back :
          (c : Connector)
          → (is_active c ≡ true) ⊎ Queued (OrId P false id) q' (connector_id c)
          → (is_active c ≡ true) ⊎ Queued P ((id, k) ∷ q') (connector_id c)
      back c (inl a) = inl a
      back c (inr (inl (inl x))) = inr (inl x)
      back c (inr (inl (inr e))) = inr (inr (rw ((eq_iff id (connector_id c)).1 (sym e))))
      back c (inr (inr x)) = inr (inr (ground arith))

  -- The turn that a pass that returns has made of the first entry, and the pass over the rest.
  first_turn :
      (id : String) (k : ℕ) (q : Dict ℕ) (cs cs' : List Connector) (q' : Dict ℕ) (s s' : Cells)
      (c : Connector)
      → get_elem? cs k ≡ some c
      → retry_each p b done ((id, k) ∷ q) cs s ≡ ok (cs', q', s')
      → (started : Bool) × (c' : Connector) × (rest : Dict ℕ) × (retry
            (p.answers id)
            (p.broker id)
            b
            done
            (p.meanwhile id s)
            c
          ≡ ok (started, c'))
        × (retry_each p b done q (set cs k c') (p.meanwhile id s) ≡ ok (cs', rest, s'))
        × (keep_if_not started (id, k) rest ≡ q')
  unfolding retry_each
  first_turn id k q cs cs' q' s s' c here h =
      let (r, e, h') =
        >>=-eq-ok (retry (p.answers id) (p.broker id) b done (p.meanwhile id s) c) _
          (rw (here, retry_each) at h) in
      let (r', e', h'') =
        >>=-eq-ok (retry_each p b done q (set cs k r.1) (p.meanwhile id s)) _ h' in
      (r.0, r.1, r'.1, e, ground arith, ground arith)

  -- From distinct identifiers and a queue that points at its connectors, a pass that returns keeps
  -- what `Kept` says.
  pub retry_each-Kept :
      (P : String → Type 0) (q : Dict ℕ) (cs cs' : List Connector) (q' : Dict ℕ) (s s' : Cells)
      → HasUniqueIds cs
      → Points cs q
      → NoneLost (Queued P q) cs
      → retry_each p b done q cs s ≡ ok (cs', q', s')
      → Kept P cs cs' q'
  unfolding retry_each
  retry_each-Kept P [] cs cs' q' s s' u pts w h =
      let e1 : cs ≡ cs' = ground arith in
      let e2 : q' ≡ [] = ground arith in
      rw (e2, ← e1) (record { same_ids = refl; points = tt; none_lost = w })
  retry_each-Kept P ((id, k) ∷ q) cs cs' q' s s' u (g, pts) w h =
      let (c, here, name) = get_elem?-of_ids cs k id g in
      let (started, c', rest, e, h', e') = first_turn id k q cs cs' q' s s' c here h in
      let (same, cases) =
        retry_cases (p.answers id) (p.broker id) b done (p.meanwhile id s) c c' started e in
      let ids_kept = ids-set cs k c c' here same in
      finish started rest e'
        (retry_each-Kept (OrId P started id) q (set cs k c') cs' rest (p.meanwhile id s) s'
          (record { at = rw ids_kept u.at }) (rw ids_kept pts)
          (turn P id k q cs c c' started u here name same (ground arith) w) h')
        ids_kept
    where
      finish :
          (started : Bool) (rest : Dict ℕ)
          → keep_if_not started (id, k) rest ≡ q'
          → {ds : List Connector} → Kept (OrId P started id) ds cs' rest
          → ids ds ≡ ids cs
          → Kept P cs cs' q'
      finish started rest e' r ids_kept =
          let all_kept : ids cs' ≡ ids cs = r.same_ids ∙ ids_kept in
          let (pts', w') = rejoin P id k started cs' rest (rw all_kept g) r.points r.none_lost in
          rw (← e') (record { same_ids = all_kept; points = pts'; none_lost = w' })
