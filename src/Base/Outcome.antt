-- ===== src/Base/Outcome.antt =====
-- What a Go call can come to: a value, an error value, or a run-time panic.
use Prim.Native.Nat.{ℕ}
use Prim.Native.String.{String}
use mathlib.Core.Path.{◌≡◌, refl}
use mathlib.Core.Bool.{Bool, true, false}
use mathlib.Core.Logic.{◌⊎◌, inl, inr}
use mathlib.Core.Option.{Option, none, some}

-- Error values: one made by the program, by the text that it is built from; one that a package
-- outside the program returned; and one that wraps another (`%w`).
pub data Error : Type 0 where
  message : String → Error
  foreign : ℕ → Error
  wrap : String → Error → Error

pub data Outcome {ℓ} (A : Type ℓ) : Type ℓ where
  ok : A → Outcome A
  fail : Error → Outcome A
  panic : Outcome A

infixl 5 ◌>>=◌ ◌>>◌
abbrev pub ◌>>=◌ {ℓ κ} : {A : Type ℓ} {B : Type κ} → Outcome A → (A → Outcome B) → Outcome B
ok a >>= f = f a
fail e >>= f = fail e
panic >>= f = panic

abbrev pub ◌>>◌ {ℓ} : {B : Type ℓ} → Outcome (Unit {0}) → Outcome B → Outcome B
m >> k = m >>= λ _. k

-- `if !b { return err }`
abbrev pub guard : Bool → Error → Outcome (Unit {0})
guard true e = ok tt
guard false e = fail e

-- `fmt.Errorf("...: %w", err)`
abbrev pub wrapped {ℓ} : {A : Type ℓ} → String → Outcome A → Outcome A
wrapped s (ok a) = ok a
wrapped s (fail e) = fail (wrap s e)
wrapped s panic = panic

-- `fmt.Errorf("...: %v", err)`, which drops the type of the error.
abbrev pub reworded {ℓ} : {A : Type ℓ} → String → Outcome A → Outcome A
reworded s (ok a) = ok a
reworded s (fail e) = fail (message s)
reworded s panic = panic

-- An index or a slice that Go checks at run time.
abbrev pub or_panic {ℓ} : {A : Type ℓ} → Option A → Outcome A
or_panic none = panic
or_panic (some a) = ok a

abbrev pub is_ok {ℓ} : {A : Type ℓ} → Outcome A → Bool
is_ok (ok a) = true
is_ok (fail e) = false
is_ok panic = false

pub Outcome-cases {ℓ} :
    {A : Type ℓ} (r : Outcome A)
    → ((a : A) × (r ≡ ok a)) ⊎ ((e : Error) × (r ≡ fail e)) ⊎ (r ≡ panic)
Outcome-cases (ok a) = inl (a, refl)
Outcome-cases (fail e) = inr (inl (e, refl))
Outcome-cases panic = inr (inr refl)

-- Inversion of a successful bind.
pub >>=-eq-ok {ℓ κ} :
    {A : Type ℓ} {B : Type κ} (first : Outcome A) (next : A → Outcome B) {result : B}
    → (first >>= next) ≡ ok result
    → (value : A) × (first ≡ ok value) × (next value ≡ ok result)
>>=-eq-ok (ok value) next done = (value, refl, done)
>>=-eq-ok (fail e) next done = cc
>>=-eq-ok panic next done = cc

pub ok_inj {ℓ} : {A : Type ℓ} {a b : A} → ok a ≡ ok b → a ≡ b
ok_inj h = cc
