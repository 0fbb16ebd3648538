-- ===== src/Stats/Histogram.antt =====
-- server/core/histogram.go. `trim` indexes a slice at `minDeltaIndex-1`, which is a run-time panic
-- where no pair of bins is nearer than 1e99.

pub mod Weights
pub mod Merge
pub mod Bounds
pub mod Nearest
pub mod Termination
use nats_kafka.Base.{
  ℕ, zero, suc, ◌+◌, ◌%◌, ◌^◌, Bool, List, [], ◌∷◌, ◌++◌, length, take, drop, get_elem?, ◌==◌,
  Option, none, some, if◌then◌else◌,
}
use nats_kafka.Base.Int.{ℤ, pos, ltb_ℤ}
use nats_kafka.Base.Outcome.{Outcome, ok, fail, panic, or_panic, ◌>>=◌}
use nats_kafka.Stats.Float.{Float64, FloatOps}

pub record Bin : Type 0 where
  pub value : Float64
  pub count : Float64

pub record Histogram : Type 0 where
  pub bins : List Bin
  pub max_bins : ℤ
  pub total : ℕ

unfoldable pub new_histogram : ℤ → Histogram
new_histogram n = record { bins = []; max_bins = n; total = 0 }

module _ (f : FloatOps) where
  open f use {of_ℕ, literal, add, sub, mul, div, lt, le, eq}

  scale_bins : Float64 → List Bin → List Bin
  scale_bins s [] = []
  scale_bins s (b ∷ bs) = record b { value = mul b.value s } ∷ scale_bins s bs

  pub scale : Histogram → Float64 → Histogram
  unfolding scale_bins
  scale h s = record h { bins = scale_bins s h.bins }

  -- The loop of `Add`: count in the bin of the value, or open a bin in front of the first larger one.
  pub add_bin : Float64 → List Bin → List Bin
  add_bin n [] = record { value = n; count = of_ℕ 1 } ∷ []
  add_bin n (b ∷ bs) =
      if eq b.value n
      then record b { count = add b.count (of_ℕ 1) } ∷ bs
      else if lt n b.value
      then record { value = n; count = of_ℕ 1 } ∷ b ∷ bs
      else b ∷ add_bin n bs

  -- The search of `trim` from bin `i` on, behind the bin `prev`; the result is `minDeltaIndex`.
  pub closest_from : Bin → List Bin → ℕ → Float64 → ℕ → ℕ
  closest_from prev [] i min_delta min_index = min_index
  closest_from prev (b ∷ bs) i min_delta min_index =
      let delta = sub b.value prev.value in
      let nearer = lt delta min_delta in
      closest_from b bs (suc i) (if nearer then delta else min_delta)
        (if nearer then i else min_index)

  pub closest : List Bin → ℕ
  unfolding closest_from
  closest [] = 0
  closest (b ∷ bs) = closest_from b bs 1 (literal "1e99") 0

  pub merged : Bin → Bin → Bin
  merged b c =
      let total_count = add b.count c.count in
      record {
        value = div (add (mul b.value b.count) (mul c.value c.count)) total_count;
        count = total_count;
      }

  -- Bins `i - 1` and `i` become one; at `i = 0` the index -1 panics.
  pub merge_at : ℕ → List Bin → Outcome (List Bin)
  unfolding merged
  merge_at zero bins = panic
  merge_at (suc i) bins = do
    b ← or_panic (get_elem? bins i)
    c ← or_panic (get_elem? bins (suc i))
    ok (take i bins ++ (merged b c ∷ drop (suc (suc i)) bins))

  -- `for len(h.Bins) > h.MaxBins`; none once the fuel is used up. Each round removes a bin, so a round for
  -- each bin, and one for the test that ends the loop, are enough.
  pub trim_loop : ℕ → ℤ → List Bin → Option (Outcome (List Bin))
  trim_loop zero max_bins bins = none
  trim_loop (suc fuel) max_bins bins = elim (ltb_ℤ max_bins (pos (length bins))) [
    | Bool.false ↦ some (ok bins)
    | Bool.true ↦ elim (merge_at (closest bins) bins) [
      | Outcome.ok bins' ↦ trim_loop fuel max_bins bins'
      | Outcome.fail e ↦ some (fail e)
      | Outcome.panic ↦ some panic
    ]
  ]

  -- With a round for each bin and one more; these do not run out.
  pub trim : Histogram → Outcome Histogram
  trim h = do
    result ← or_panic (trim_loop (suc (length h.bins)) h.max_bins h.bins)
    bins' ← result
    ok (record h { bins = bins' })

  -- `Add`, with the deferred `trim`; `Total` is a uint64.
  pub add_value : Histogram → Float64 → Outcome Histogram
  unfolding trim
  add_value h n = trim (record h { total = (h.total + 1) % 2 ^ 64; bins = add_bin n h.bins })

  pub quantile_from : Float64 → List Bin → Float64
  quantile_from count [] = literal "-1"
  quantile_from count (b ∷ bs) =
      let count' = sub count b.count in
      if le count' (literal "0") then b.value else quantile_from count' bs

  pub quantile : Histogram → Float64 → Float64
  unfolding quantile_from
  quantile h q = quantile_from (mul q (of_ℕ h.total)) h.bins

  sum_from : Float64 → List Bin → Float64
  sum_from acc [] = acc
  sum_from acc (b ∷ bs) = sum_from (add acc (mul b.value b.count)) bs

  pub mean : Histogram → Float64
  unfolding sum_from
  mean h =
      if h.total == 0 then literal "0" else div (sum_from (literal "0.0") h.bins) (of_ℕ h.total)

  pub count_of : Histogram → Float64
  count_of h = of_ℕ h.total
