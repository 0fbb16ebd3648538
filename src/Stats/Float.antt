-- ===== src/Stats/Float.antt =====
-- Go's float64, which the statistics compute with. A value is a 64-bit pattern; the operations are
-- the processor's, so they are a parameter, and so are the IEEE 754 facts that a proof relies on.
use nats_kafka.Base.{ℕ, String, ◌+◌, ◌^◌, ◌≤◌, ◌<◌, ◌≡◌, true, false, Bool}

abbrev pub Float64 : Type 0
Float64 = ℕ

pub record FloatOps : Type 0 where
  -- the conversion `float64(n)`, and a literal of the source
  pub of_ℕ : ℕ → Float64
  pub literal : String → Float64
  pub add : Float64 → Float64 → Float64
  pub sub : Float64 → Float64 → Float64
  pub mul : Float64 → Float64 → Float64
  pub div : Float64 → Float64 → Float64
  -- `x < y`, `x <= y` and `x == y`, false on a NaN
  pub lt : Float64 → Float64 → Bool
  pub le : Float64 → Float64 → Bool
  pub eq : Float64 → Float64 → Bool

-- Below this bound float64 holds every integer exactly.
abbrev pub exact_limit : ℕ
exact_limit = 2 ^ 53

-- `Within` is the range of the values that are recorded: finite numbers from 0 to 2^63, as request
-- times in nanoseconds are. In it differences are far below 1e99, are ordered, and the weighted mean
-- of two values, with counts that float64 holds exactly, stays between 0 and the power of two.
module _ (f : FloatOps) where
  open f use {of_ℕ, literal, add, sub, mul, div, lt}

  pub record FloatLaws : Type 1 where
    pub Within : Float64 → Type 0
    pub add_counts : (a b : ℕ) → a + b ≤ exact_limit → add (of_ℕ a) (of_ℕ b) ≡ of_ℕ (a + b)
    pub delta_small : (u v : Float64) → Within u → Within v → lt (sub v u) (literal "1e99") ≡ true
    pub mean_within :
        (u v : Float64) (a b : ℕ)
        → Within u
        → Within v
        → 0 < a
        → 0 < b
        → a + b ≤ exact_limit
        → Within (div (add (mul u (of_ℕ a)) (mul v (of_ℕ b))) (of_ℕ (a + b)))
    pub lt_irrefl : (x : Float64) → lt x x ≡ false
    -- y < x and not z < x give not z < y
    pub lt_below : (x y z : Float64) → lt y x ≡ true → lt z x ≡ false → lt z y ≡ false
    pub lt_trans : (x y z : Float64) → lt x y ≡ true → lt y z ≡ true → lt x z ≡ true
