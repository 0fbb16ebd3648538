-- ===== src/Stats/Histogram/Merge.antt =====
-- One round of `trim`: which bins it picks, and what merging them keeps.
use nats_kafka.Base.{
  ℕ, zero, suc, ◌+◌, ◌≤◌, ◌<◌, ◌≡◌, refl, List, [], ◌∷◌, arith, length, Bool-cases, inl, inr, ◌⊎◌,
}
use nats_kafka.Base.Outcome.{ok}
use nats_kafka.Stats.Float.{Float64, FloatOps, FloatLaws, exact_limit}
use nats_kafka.Stats.Histogram.{Bin, closest_from, closest, merged, merge_at}
use nats_kafka.Stats.Histogram.Weights.{Weighs}

module _ (f : FloatOps) where
  -- The index that the search returns is the one it had, or that of a bin it has looked at.
  closest_from_range :
      (prev : Bin) (bs : List Bin) (i : ℕ) (d : Float64) (k : ℕ)
      → (closest_from f prev bs i d k ≡ k)
        ⊎ ((i ≤ closest_from f prev bs i d k) × (closest_from f prev bs i d k < i + length bs))
  unfolding closest_from
  closest_from_range prev [] i d k = inl refl
  closest_from_range prev (b ∷ bs) i d k = elim (Bool-cases (f.lt (f.sub b.value prev.value) d)) [
    | inl near ↦
        rw near (omega (arith, closest_from_range b bs (suc i) (f.sub b.value prev.value) i))
    | inr far ↦ rw far (omega (arith, closest_from_range b bs (suc i) d k))
  ]

  merge_at-cons :
      (i : ℕ) (b : Bin) (bs bs' : List Bin)
      → merge_at f (suc i) bs ≡ ok bs'
      → merge_at f (suc (suc i)) (b ∷ bs) ≡ ok (b ∷ bs')
  unfolding merge_at
  merge_at-cons i b bs bs' h = ground arith

module _ (f : FloatOps) (laws : FloatLaws f) where
  open f use {of_ℕ}
  open laws use {Within, add_counts, delta_small, mean_within}

  merged-Weighs :
      (b c : Bin) (bs : List Bin) (n : ℕ)
      → n ≤ exact_limit
      → Weighs f laws (b ∷ c ∷ bs) n
      → Weighs f laws (merged f b c ∷ bs) n
  unfolding merged
  merged-Weighs b c bs n fits (w, m, p, q, r, (w', m', p', q', r', s, e'), e) =
      let counts = add_counts w w' (omega arith) in
      (
        w + w',
        m',
        rw (p, p') counts,
        omega arith,
        rw (p, p', counts) (mean_within b.value c.value w w' r r' q q' (omega arith)),
        s,
        omega arith,
      )

  -- Merging a bin with the one in front of it is no panic, keeps the weight and removes one bin.
  pub merge_at-Weighs :
      (i : ℕ) (bs : List Bin) (n : ℕ)
      → n ≤ exact_limit
      → suc i < length bs
      → Weighs f laws bs n
      → (bs' : List Bin) × (merge_at f (suc i) bs ≡ ok bs')
        × Weighs f laws bs' n
        × (length bs' + 1 ≡ length bs)
  unfolding merge_at
  merge_at-Weighs i [] n fits lt h = absurd (omega arith)
  merge_at-Weighs i (b ∷ []) n fits lt h = absurd (omega arith)
  merge_at-Weighs zero (b ∷ c ∷ bs) n fits lt h =
      (merged f b c ∷ bs, refl, merged-Weighs b c bs n fits h, omega arith)
  merge_at-Weighs (suc i) (b ∷ bs) n fits lt (w, m, p, q, r, s, e) =
      let (bs', found, kept, shorter) = merge_at-Weighs i bs m (omega arith) (omega arith) s in
      (b ∷ bs', merge_at-cons f i b bs bs' found, (w, m, p, q, r, kept, e), omega arith)

  -- With two bins or more the search picks a bin behind the first.
  pub closest_range :
      (bs : List Bin) (n : ℕ)
      → Weighs f laws bs n
      → 1 < length bs
      → (j : ℕ) × (closest f bs ≡ suc j) × (suc j < length bs)
  unfolding closest closest_from
  closest_range [] n h lt = absurd (omega arith)
  closest_range (b ∷ []) n h lt = absurd (omega arith)
  closest_range (b ∷ c ∷ bs) n (w, m, p, q, r, (w', m', p', q', r', s, e'), e) lt =
      rw (delta_small b.value c.value r r') (
        from (closest_from f c bs 2 (f.sub c.value b.value) 1)
          (closest_from_range f c bs 2 (f.sub c.value b.value) 1))
    where
      from :
          (k : ℕ)
          → (k ≡ 1) ⊎ ((2 ≤ k) × (k < 2 + length bs))
          → (j : ℕ) × (k ≡ suc j) × (suc j < suc (suc (length bs)))
      from zero h = absurd (omega arith)
      from (suc j) h = (j, refl, omega arith)
