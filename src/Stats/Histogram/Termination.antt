-- ===== src/Stats/Histogram/Termination.antt =====
-- The loop of `trim` ends.
use nats_kafka.Base.{
  ℕ, zero, suc, ◌<◌, ◌≡◌, refl, sym, ap, ◌∙◌, List, [], ◌∷◌, ◌++◌, arith, length, take, drop,
  get_elem?, Option, some, none, Bool-cases, inl, inr, true, false,
}
use nats_kafka.Base.Int.{ℤ, pos, ltb_ℤ, ◌≤ℤ◌}
use nats_kafka.Base.Outcome.{
  Error, Outcome-cases, Outcome, ok, fail, panic, or_panic, >>=-eq-ok, ok_inj,
}
use nats_kafka.Stats.Float.{FloatOps}
use nats_kafka.Stats.Histogram.{Bin, closest, merged, merge_at, trim_loop}

replaced-length :
    (i : ℕ) (x : Bin) (bs : List Bin) (c : Bin)
    → get_elem? bs (suc i) ≡ some c
    → suc (length (take i bs ++ (x ∷ drop (suc (suc i)) bs))) ≡ length bs
replaced-length i x [] c h = cc
replaced-length zero x (a ∷ []) c h = cc
replaced-length zero x (a ∷ b ∷ bs) c h = refl
replaced-length (suc i) x (a ∷ bs) c h = ap suc (replaced-length i x bs c h)

or_panic-eq-ok : {A : Type 0} (o : Option A) {a : A} → or_panic o ≡ ok a → o ≡ some a
or_panic-eq-ok none h = cc
or_panic-eq-ok (some b) h = ap some (ok_inj h)

-- Bins that are left are no more than the limit.
pub IsTrimmed : ℤ → Outcome (List Bin) → Type 0
IsTrimmed m (ok bs) = pos (length bs) ≤ℤ m
IsTrimmed m (fail e) = Unit {0}
IsTrimmed m panic = Unit {0}

not_longer : (m : ℤ) (n : ℕ) → ltb_ℤ m (pos n) ≡ false → pos n ≤ℤ m
not_longer m n h = ground arith

module _ (f : FloatOps) where
  merge_at-length :
      (i : ℕ) (bs cs : List Bin) → merge_at f i bs ≡ ok cs → suc (length cs) ≡ length bs
  unfolding merge_at
  merge_at-length zero bs cs h = cc
  merge_at-length (suc i) bs cs h =
      let (b, first, h1) = >>=-eq-ok (or_panic (get_elem? bs i)) _ h in
      let (c, second, same) = >>=-eq-ok (or_panic (get_elem? bs (suc i))) _ h1 in
      ap (λ x. suc (length x)) (sym (ok_inj same))
      ∙ replaced-length i (merged f b c) bs c (or_panic-eq-ok (get_elem? bs (suc i)) second)

  pub trim_loop_ends :
      (fuel : ℕ) (m : ℤ) (bs : List Bin)
      → ltb_ℤ m (pos (length bs)) ≡ false
      → trim_loop f (suc fuel) m bs ≡ some (ok bs)
  unfolding trim_loop
  trim_loop_ends fuel m bs short = rw (short, trim_loop) refl

  pub trim_loop_merges :
      (fuel : ℕ) (m : ℤ) (bs cs : List Bin)
      → ltb_ℤ m (pos (length bs)) ≡ true
      → merge_at f (closest f bs) bs ≡ ok cs
      → trim_loop f (suc fuel) m bs ≡ trim_loop f fuel m cs
  unfolding trim_loop
  trim_loop_merges fuel m bs cs long done = rw (long, trim_loop, done) refl

  trim_loop_fails :
      (fuel : ℕ) (m : ℤ) (bs : List Bin) (e : Error)
      → ltb_ℤ m (pos (length bs)) ≡ true
      → merge_at f (closest f bs) bs ≡ fail e
      → trim_loop f (suc fuel) m bs ≡ some (fail e)
  unfolding trim_loop
  trim_loop_fails fuel m bs e long stopped = rw (long, trim_loop, stopped) refl

  trim_loop_panics :
      (fuel : ℕ) (m : ℤ) (bs : List Bin)
      → ltb_ℤ m (pos (length bs)) ≡ true
      → merge_at f (closest f bs) bs ≡ panic
      → trim_loop f (suc fuel) m bs ≡ some panic
  unfolding trim_loop
  trim_loop_panics fuel m bs long stopped = rw (long, trim_loop, stopped) refl

  -- The loop of `trim` ends after no more rounds than there are bins, whatever the values, the counts and
  -- the limit are: it comes to a result or to a run-time panic, the same with any fuel above the number of
  -- bins, and bins that it leaves are no more than the limit.
  pub trim_loop_fuel :
      (fuel fuel' : ℕ) (m : ℤ) (bs : List Bin)
      → length bs < fuel
      → length bs < fuel'
      → (r : Outcome (List Bin)) × (trim_loop f fuel m bs ≡ some r)
        × (trim_loop f fuel' m bs ≡ some r)
        × IsTrimmed m r
  unfolding IsTrimmed
  trim_loop_fuel zero fuel' m bs h h' = absurd (omega arith)
  trim_loop_fuel (suc fuel) zero m bs h h' = absurd (omega arith)
  trim_loop_fuel (suc fuel) (suc fuel') m bs h h' = elim (Bool-cases (ltb_ℤ m (pos (length bs)))) [
    | inr short ↦ (
      ok bs,
      trim_loop_ends fuel m bs short,
      trim_loop_ends fuel' m bs short,
      not_longer m (length bs) short,
    )
    | inl long ↦ elim (Outcome-cases (merge_at f (closest f bs) bs)) [
      | inl (cs, done) ↦
          let less = merge_at-length (closest f bs) bs cs done in
          let (r, one, other, trimmed) =
            trim_loop_fuel fuel fuel' m cs (omega arith) (omega arith) in
          (
            r,
            trim_loop_merges fuel m bs cs long done ∙ one,
            trim_loop_merges fuel' m bs cs long done ∙ other,
            trimmed,
          )
      | inr (inl (e, stopped)) ↦ (
        fail e,
        trim_loop_fails fuel m bs e long stopped,
        trim_loop_fails fuel' m bs e long stopped,
        tt,
      )
      | inr (inr stopped) ↦ (
        panic,
        trim_loop_panics fuel m bs long stopped,
        trim_loop_panics fuel' m bs long stopped,
        tt,
      )
    ]
  ]
