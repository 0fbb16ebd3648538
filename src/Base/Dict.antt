-- ===== src/Base/Dict.antt =====
-- Go's `map[string]V` as an association list. The order of its entries is the order in which one
-- `range` visits them; statements that hold for every list hold for every such order.
use Prim.Native.String.{String}
use text.Mathlib.Text.{◌==◌ as str_eq}
use text.Mathlib.TextEquality.{eq_iff}
use mathlib.Core.Path.{◌≡◌, refl, subst}
use mathlib.Core.Bool.{Bool, true, false}
use mathlib.Core.Option.{Option, none, some}
use mathlib.Core.List.{List, [], ◌∷◌}
use native.Mathlib.Omega.{arith}
use nats_kafka.Base.Tests.{if◌then◌else◌, Bool-cases}
use nats_kafka.Base.Lists.{All}
use mathlib.Core.Logic.{inl, inr}

abbrev pub Dict {ℓ} : Type ℓ → Type ℓ
Dict V = List (String × V)

module _ {ℓ} {V : Type ℓ} where
  -- m[k], with its second result
  unfoldable pub lookup : String → Dict V → Option V
  lookup k [] = none
  lookup k ((j, v) ∷ m) = if str_eq j k then some v else lookup k m

  -- `_, ok := m[k]`
  unfoldable pub has : String → Dict V → Bool
  has k [] = false
  has k ((j, v) ∷ m) = if str_eq j k then true else has k m

  -- m[k] = v
  unfoldable pub insert : String → V → Dict V → Dict V
  insert k v [] = (k, v) ∷ []
  insert k v ((j, w) ∷ m) = if str_eq j k then (k, v) ∷ m else (j, w) ∷ insert k v m

  pub lookup-insert :
      (key other : String) (new : V) (m : Dict V)
      → lookup other (insert key new m) ≡ (if str_eq key other then some new else lookup other m)
  unfolding lookup insert
  lookup-insert key other new [] = refl
  lookup-insert key other new ((name, old) ∷ m) =
      let rest = lookup-insert key other new m in
      ground (arith, eq_iff key other, eq_iff name key, eq_iff name other)

  pub has-insert :
      (k j : String) (v : V) (m : Dict V)
      → has j (insert k v m) ≡ (if str_eq k j then true else has j m)
  unfolding has insert
  has-insert k j v [] = refl
  has-insert k j v ((i, w) ∷ m) =
      ground (arith, eq_iff k j, eq_iff i k, eq_iff i j, has-insert k j v m)

  pub All-insert :
      (P : String × V → Type 0) (k : String) (v : V) (m : Dict V)
      → P (k, v)
      → All P m
      → All P (insert k v m)
  unfolding insert
  All-insert P k v [] p h = (p, tt)
  All-insert P k v ((j, w) ∷ m) p h = elim (Bool-cases (str_eq j k)) [
    | inl same ↦ rw same (p, h.1)
    | inr other ↦ rw other (h.0, All-insert P k v m p h.1)
  ]

  -- An entry that a look-up finds satisfies what all entries do.
  pub All-lookup :
      (P : V → Type 0) (k : String) (v : V) (m : Dict V)
      → All (λ e. P e.1) m
      → lookup k m ≡ some v
      → P v
  unfolding lookup
  All-lookup P k v [] h e = cc
  All-lookup P k v ((j, w) ∷ m) h e = elim (Bool-cases (str_eq j k)) [
    | inl same ↦ subst P (ground arith) h.0
    | inr other ↦ All-lookup P k v m h.1 (ground arith)
  ]

  pub has-insert_self : (k : String) (v : V) (m : Dict V) → has k (insert k v m) ≡ true
  has-insert_self k v m = rw has-insert (ground (arith, eq_iff k k))

  pub has-insert_of_has :
      (k n : String) (v : V) (m : Dict V) → has n m ≡ true → has n (insert k v m) ≡ true
  has-insert_of_has k n v m h = rw has-insert (ground arith)

  pub lookup-insert_self : (k : String) (v : V) (m : Dict V) → lookup k (insert k v m) ≡ some v
  lookup-insert_self k v m = rw (lookup-insert k k v m) (ground (arith, eq_iff k k))
