-- ===== src/Bridge/Reconnect/Queue.antt =====
-- The queue as names: what a change of one connector does to the names of all, and the statement that
-- no connector is lost.
use nats_kafka.Base.{
  ℕ, zero, suc, String, Bool, true, false, List, [], ◌∷◌, map, some, ◌≡◌, refl, ap, sym, subst, ◌∙◌,
  ◌⊎◌, inl, inr, arith, get_elem?, set, get_elem?-set, All, if◌then◌else◌, ◌==◌, ==_iff,
}
use nats_kafka.Base.Dict.{Dict}
use nats_kafka.Connector.{Connector, connector_id}
use nats_kafka.Connector.Lifecycle.Laws.{is_active}

abbrev pub ids : List Connector → List String
ids = map connector_id

-- No two connectors have the same identifier.
pub record HasUniqueIds (cs : List Connector) : Type 0 where
  pub at :
      (i j : ℕ) (n : String) → get_elem? (ids cs) i ≡ some n → get_elem? (ids cs) j ≡ some n → i ≡ j

-- Each entry of the queue is the place of a connector under its identifier.
abbrev pub Points : List Connector → Dict ℕ → Type 0
Points cs q = All (λ e. get_elem? (ids cs) e.1 ≡ some e.0) q

-- Every connector is active, or its identifier satisfies `P`.
pub record NoneLost (P : String → Type 0) (cs : List Connector) : Type 0 where
  pub at :
      (i : ℕ) (c : Connector) → get_elem? cs i ≡ some c → (is_active c ≡ true) ⊎ P (connector_id c)

pub get_elem?-ids :
    (cs : List Connector) (i : ℕ) (c : Connector)
    → get_elem? cs i ≡ some c
    → get_elem? (ids cs) i ≡ some (connector_id c)
get_elem?-ids [] i c h = cc
get_elem?-ids (d ∷ cs) zero c h = ground arith
get_elem?-ids (d ∷ cs) (suc i) c h = get_elem?-ids cs i c h

-- The connector behind an entry of the queue.
pub get_elem?-of_ids :
    (cs : List Connector) (i : ℕ) (n : String)
    → get_elem? (ids cs) i ≡ some n
    → (c : Connector) × (get_elem? cs i ≡ some c) × (connector_id c ≡ n)
get_elem?-of_ids [] i n h = cc
get_elem?-of_ids (d ∷ cs) zero n h = (d, refl, ground arith)
get_elem?-of_ids (d ∷ cs) (suc i) n h = get_elem?-of_ids cs i n h

pub ids-set :
    (cs : List Connector) (k : ℕ) (c d : Connector)
    → get_elem? cs k ≡ some c
    → connector_id d ≡ connector_id c
    → ids (set cs k d) ≡ ids cs
ids-set [] k c d h e = refl
ids-set (x ∷ cs) zero c d h e = ground arith
ids-set (x ∷ cs) (suc k) c d h e = cc (ids-set cs k c d h e)

-- One connector is replaced by one that is active or satisfies `Q`; the others satisfy `Q` if they
-- satisfied `P`, by name.
pub NoneLost-set :
    {P Q : String → Type 0} (cs : List Connector) (k : ℕ) (c d : Connector)
    → HasUniqueIds cs
    → get_elem? cs k ≡ some c
    → connector_id d ≡ connector_id c
    → (is_active d ≡ true) ⊎ Q (connector_id c)
    → ((n : String) → ¬ (n ≡ connector_id c) → P n → Q n)
    → NoneLost P cs
    → NoneLost Q (set cs k d)
NoneLost-set {P} {Q} cs k c d u h e now carry w = record { at = place }
  where
    other :
        (i : ℕ) (x : Connector)
        → get_elem? cs i ≡ some x
        → ¬ (k ≡ i)
        → (is_active x ≡ true) ⊎ P (connector_id x)
        → (is_active x ≡ true) ⊎ Q (connector_id x)
    other i x g ne (inl a) = inl a
    other i x g ne (inr p) = inr (
        carry (connector_id x)
          (λ same. ne (
            u.at k i (connector_id c) (get_elem?-ids cs k c h)
              (get_elem?-ids cs i x g ∙ ap some same)))
          p)

    same_place : (x : Connector) → some d ≡ some x → (is_active x ≡ true) ⊎ Q (connector_id x)
    same_place x g =
        let f : d ≡ x = ground arith in
        subst (λ y. (is_active y ≡ true) ⊎ Q (connector_id y)) f
          (subst (λ n. (is_active d ≡ true) ⊎ Q n) (sym e) now)

    by_test :
        (i : ℕ) (x : Connector) (t : Bool)
        → (k == i) ≡ t
        → (if t then some d else get_elem? cs i) ≡ some x
        → (is_active x ≡ true) ⊎ Q (connector_id x)
    by_test i x true t g = same_place x g
    by_test i x false t g = other i x g (λ same. cc ((==_iff k i).1 same, t)) (w.at i x g)

    place :
        (i : ℕ) (x : Connector)
        → get_elem? (set cs k d) i ≡ some x
        → (is_active x ≡ true) ⊎ Q (connector_id x)
    place i x g = by_test i x (k == i) refl (sym (get_elem?-set cs k i d c h) ∙ g)

pub NoneLost-cons :
    {P : String → Type 0} (c : Connector) (cs : List Connector)
    → (is_active c ≡ true) ⊎ P (connector_id c)
    → NoneLost P cs
    → NoneLost P (c ∷ cs)
NoneLost-cons {P} c cs now w = record { at = place }
  where
    place :
        (i : ℕ) (d : Connector)
        → get_elem? (c ∷ cs) i ≡ some d
        → (is_active d ≡ true) ⊎ P (connector_id d)
    place zero d e =
        let same : c ≡ d = ground arith in
        subst (λ x. (is_active x ≡ true) ⊎ P (connector_id x)) same now
    place (suc i) d e = w.at i d e
