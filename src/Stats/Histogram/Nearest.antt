-- ===== src/Stats/Histogram/Nearest.antt =====
-- The search of `trim` finds the two neighbours that are nearest to one another.
use nats_kafka.Base.{
  ℕ, suc, ◌+◌, ◌<◌, ◌≡◌, refl, List, [], ◌∷◌, arith, length, Bool-cases, inl, inr, get_elem?, some,
  ◌⊎◌, true, false, All,
}
use nats_kafka.Stats.Float.{Float64, FloatOps, FloatLaws}
use nats_kafka.Stats.Histogram.{Bin, closest_from, closest}
use nats_kafka.Stats.Histogram.Weights.{Weighs}

module _ (f : FloatOps) where
  -- The distances from each bin to the next.
  abbrev pub deltas_from : Bin → List Bin → List Float64
  deltas_from prev [] = []
  deltas_from prev (b ∷ bs) = f.sub b.value prev.value ∷ deltas_from b bs

  abbrev pub deltas : List Bin → List Float64
  deltas [] = []
  deltas (b ∷ bs) = deltas_from b bs

module _ (f : FloatOps) (laws : FloatLaws f) where
  open f use {sub, lt, literal}
  open laws use {lt_irrefl, lt_below, lt_trans, Within, delta_small}

  -- `d` is the least of `ds` and of the distance `d0` that the search starts from: the latter, with
  -- the index `k`, or the one at `j`, with the index `i + j`.
  abbrev Least : List Float64 → Float64 → ℕ → ℕ → ℕ → Float64 → Type 0
  Least ds d0 k i r d =
      (((r ≡ k) × (d ≡ d0))
        ⊎ ((j : ℕ) × (r ≡ i + j) × (get_elem? ds j ≡ some d) × (lt d d0 ≡ true)))
      × All (λ e. lt e d ≡ false) ds

  closest_from-Least :
      (prev : Bin) (bs : List Bin) (i : ℕ) (d0 : Float64) (k : ℕ)
      → (d : Float64) × Least (deltas_from f prev bs) d0 k i (closest_from f prev bs i d0 k) d
  unfolding closest_from
  closest_from-Least prev [] i d0 k = (d0, (inl (refl, refl), tt))
  closest_from-Least prev (b ∷ bs) i d0 k =
      let delta = sub b.value prev.value in
      elim (Bool-cases (lt delta d0)) [
        | inl near ↦ rw near (nearer delta near (closest_from-Least b bs (suc i) delta i))
        | inr far ↦ rw far (farther delta far (closest_from-Least b bs (suc i) d0 k))
      ]
    where
      nearer :
          (delta : Float64)
          → lt delta d0 ≡ true
          → {r : ℕ} → (d : Float64) × Least (deltas_from f b bs) delta i (suc i) r d
          → (d : Float64) × Least (delta ∷ deltas_from f b bs) d0 k i r d
      nearer delta near (d, (inl (e, p), all)) =
          (d, (inr (0, omega arith, ground arith, rw p near), (rw p (lt_irrefl delta), all)))
      nearer delta near (d, (inr (j, e, p, less), all)) = (
        d,
        (
          inr (suc j, omega arith, p, lt_trans d delta d0 less near),
          (lt_below delta d delta less (lt_irrefl delta), all),
        ),
      )

      farther :
          (delta : Float64)
          → lt delta d0 ≡ false
          → {r : ℕ} → (d : Float64) × Least (deltas_from f b bs) d0 k (suc i) r d
          → (d : Float64) × Least (delta ∷ deltas_from f b bs) d0 k i r d
      farther delta far (d, (inl (e, p), all)) = (d, (inl (e, p), (rw p far, all)))
      farther delta far (d, (inr (j, e, p, less), all)) =
          (d, (inr (suc j, omega arith, p, less), (lt_below d0 d delta less far, all)))

  -- With two bins or more whose values are in range, `closest` returns the index of a bin whose
  -- distance to the bin in front of it is the least: no neighbours are nearer.
  pub closest_minimal :
      (bs : List Bin) (n : ℕ)
      → Weighs f laws bs n
      → 1 < length bs
      → (j : ℕ) × (d : Float64) × (closest f bs ≡ suc j)
        × (get_elem? (deltas f bs) j ≡ some d)
        × All (λ e. lt e d ≡ false) (deltas f bs)
  unfolding closest
  closest_minimal [] n h one = absurd (omega arith)
  closest_minimal (b ∷ []) n h one = absurd (omega arith)
  closest_minimal (b ∷ c ∷ bs) n (w, m, p, q, r, (w', m', p', q', r', s, e'), e) one =
      pick (closest_from-Least b (c ∷ bs) 1 (literal "1e99") 0)
    where
      small : lt (sub c.value b.value) (literal "1e99") ≡ true
      small = delta_small b.value c.value r r'

      pick :
          {k : ℕ}
          → (d : Float64) × Least (deltas_from f b (c ∷ bs)) (literal "1e99") 0 1 k d
          → (j : ℕ) × (d : Float64) × (k ≡ suc j)
            × (get_elem? (deltas_from f b (c ∷ bs)) j ≡ some d)
            × All (λ e. lt e d ≡ false) (deltas_from f b (c ∷ bs))
      pick (d, (inl (e, same), all)) = cc (all.0, small, same)
      pick (d, (inr (j, e, at, less), all)) = (j, d, omega arith, at, all)
