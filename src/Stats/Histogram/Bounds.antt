-- ===== src/Stats/Histogram/Bounds.antt =====
-- `Add` as a whole: it returns, within the limit on the bins, with every recorded value counted.
use nats_kafka.Base.{
  some, ℕ, zero, suc, ◌+◌, ◌≤◌, ◌<◌, ◌≡◌, refl, ◌∙◌, List, [], ◌∷◌, arith, length, Bool-cases, inl,
  inr, All, ◌%◌, ◌^◌,
}
use nats_kafka.Base.Int.{pos, ltb_ℤ}
use nats_kafka.Base.Outcome.{Outcome, ok, ◌>>=◌}
use nats_kafka.Stats.Float.{Float64, FloatOps, FloatLaws, exact_limit}
use nats_kafka.Stats.Histogram.{Bin, Histogram, add_bin, trim_loop, new_histogram, trim, add_value}
use nats_kafka.Stats.Histogram.Termination.{trim_loop_merges, trim_loop_ends}
use nats_kafka.Stats.Histogram.Weights.{Weighs, add_bin-Weighs}
use nats_kafka.Stats.Histogram.Merge.{closest_range, merge_at-Weighs}

module _ (f : FloatOps) (laws : FloatLaws f) where
  open laws use {Within}

  trim_loop-Weighs :
      (fuel limit : ℕ) (bs : List Bin) (n : ℕ)
      → length bs < fuel
      → 1 ≤ limit
      → n ≤ exact_limit
      → Weighs f laws bs n
      → (bs' : List Bin) × (trim_loop f fuel (pos limit) bs ≡ some (ok bs'))
        × Weighs f laws bs' n
        × (length bs' ≤ limit)
  trim_loop-Weighs zero limit bs n lt one fits h = absurd (omega arith)
  trim_loop-Weighs (suc fuel) limit bs n lt one fits h =
      elim (Bool-cases (ltb_ℤ (pos limit) (pos (length bs)))) [
        | inl long ↦
            let more : limit < length bs = ground arith in
            let (j, found, room) = closest_range f laws bs n h (omega arith) in
            let (cs, done, kept, shorter) = merge_at-Weighs f laws j bs n fits room h in
            let (bs', rest, kept', short) =
              trim_loop-Weighs fuel limit cs n (omega arith) one fits kept in
            (
              bs',
              trim_loop_merges f fuel (pos limit) bs cs long (rw found done) ∙ rest,
              kept',
              short,
            )
        | inr short ↦ (bs, trim_loop_ends f fuel (pos limit) bs short, h, ground arith)
      ]

  -- What a histogram that `new_histogram` made and `add_value` filled satisfies.
  pub record IsCounted (limit : ℕ) (h : Histogram) : Type 0 where
    pub weighs : Weighs f laws h.bins h.total
    pub bounded : length h.bins ≤ limit
    pub max_kept : h.max_bins ≡ pos limit

  add_value-IsCounted :
      (limit : ℕ) (h : Histogram) (v : Float64)
      → 1 ≤ limit
      → h.total + 1 ≤ exact_limit
      → Within v
      → IsCounted limit h
      → (h' : Histogram) × (add_value f h v ≡ ok h') × IsCounted limit h' × (h'.total ≡ h.total + 1)
  unfolding add_value trim
  add_value-IsCounted limit h v one fits hv c =
      let total : (h.total + 1) % 2 ^ 64 ≡ h.total + 1 = omega arith in
      let bins = add_bin f v h.bins in
      let added = add_bin-Weighs f laws v h.bins h.total hv fits c.weighs in
      let (bs', done, kept, short) =
        trim_loop-Weighs (suc (length bins)) limit bins (h.total + 1) (omega arith) one fits
          added in
      (
        record { bins = bs'; max_bins = h.max_bins; total = (h.total + 1) % 2 ^ 64 },
        rw (c.max_kept, done),
        record { weighs = rw total kept; bounded = short; max_kept = c.max_kept },
        total,
      )

  pub observe : List Float64 → Histogram → Outcome Histogram
  observe [] h = ok h
  observe (v ∷ vs) h = add_value f h v >>= observe vs

  observe-IsCounted :
      (limit : ℕ) (vs : List Float64) (h : Histogram)
      → 1 ≤ limit
      → h.total + length vs ≤ exact_limit
      → All Within vs
      → IsCounted limit h
      → (h' : Histogram) × (observe vs h ≡ ok h')
        × IsCounted limit h'
        × (h'.total ≡ h.total + length vs)
  unfolding observe
  observe-IsCounted limit [] h one fits hv c = (h, refl, c, omega arith)
  observe-IsCounted limit (v ∷ vs) h one fits hv c =
      let (h1, added, c1, t1) = add_value-IsCounted limit h v one (omega arith) hv.0 c in
      let (h2, rest, c2, t2) = observe-IsCounted limit vs h1 one (omega arith) hv.1 c1 in
      (h2, rw added rest, c2, omega arith)

  -- A histogram with room for at least one bin that records any values in range, fewer than 2^53:
  -- no call of `Add` panics, the total is the number of values, the bins never pass the limit, and
  -- their counts, each the float64 of a positive number, add up to the total.
  pub new_histogram-observe :
      (limit : ℕ) (vs : List Float64)
      → 1 ≤ limit
      → length vs ≤ exact_limit
      → All Within vs
      → (h : Histogram) × (observe vs (new_histogram (pos limit)) ≡ ok h)
        × (h.total ≡ length vs)
        × (length h.bins ≤ limit)
        × Weighs f laws h.bins (length vs)
  unfolding new_histogram
  new_histogram-observe limit vs one fits hv =
      let (h, done, c, t) =
        observe-IsCounted limit vs (record { bins = []; max_bins = pos limit; total = 0 }) one
          (omega arith) hv (record { weighs = refl; bounded = omega arith; max_kept = refl }) in
      let t' : h.total ≡ length vs = omega arith in (h, done, t', c.bounded, rw t' at c.weighs)
