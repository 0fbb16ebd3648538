-- ===== src/Kafka/Key/Laws.antt =====
-- What the refined key of a message is.
use nats_kafka.Base.{
  ℕ, ltb, List, [], ◌∷◌, ◌++◌, true, false, some, length, take, ==_iff, ◌≡◌, refl, arith,
  Bool-cases, Option-cases, ◌⊎◌, inl, inr, ap, sym, ◌∙◌, ◌≤◌,
}
use nats_kafka.Kafka.{Bytes, Header}
use nats_kafka.Kafka.Key.{dot, wildcard, last, is_unrefined, subject_of, split, join, refine_key}
use nats_kafka.Kafka.Key.Tokens.{IsTokenPrefix, join-take-split}
use nats_kafka.Kafka.Key.Subject.{IsSubject, subject_of_subject, subject_of-IsSubject}

last-append_wildcard : (xs : Bytes) → last (xs ++ dot ∷ wildcard ∷ []) ≡ some wildcard
unfolding last
last-append_wildcard [] = refl
last-append_wildcard (x ∷ []) = refl
last-append_wildcard (x ∷ y ∷ ys) = last-append_wildcard (y ∷ ys)

is_unrefined-refined : (xs : Bytes) → is_unrefined (xs ++ dot ∷ wildcard ∷ []) ≡ false
unfolding is_unrefined
is_unrefined-refined xs = rw (last-append_wildcard xs, is_unrefined) refl

-- The key depends on the old one only in whether that ends in the wildcard.
refine_key_cases :
    (key : Bytes) (hs : List Header)
    → (refine_key key hs ≡ key)
      ⊎ ((s : Bytes) × (subject_of hs ≡ some s)
          × (ltb (length (split s)) 5 ≡ false)
          × (refine_key key hs ≡ join (take 5 (split s)) ++ dot ∷ wildcard ∷ []))
unfolding refine_key
refine_key_cases key hs = elim (Bool-cases (is_unrefined key)) [
  | inl plain ↦ inl (rw (plain, refine_key) refl)
  | inr refined ↦ elim (Option-cases (subject_of hs)) [
    | inl missing ↦ inl (rw (refined, refine_key, missing) refl)
    | inr (s, found) ↦ elim (Bool-cases (ltb (length (split s)) 5)) [
      | inl short ↦ inl (rw (refined, refine_key, found, short) refl)
      | inr long ↦ inr (s, found, long, rw (refined, refine_key, found, long) refl)
    ]
  ]
]

refine_key_of_long :
    (key : Bytes) (hs : List Header) (s : Bytes)
    → is_unrefined key ≡ false
    → subject_of hs ≡ some s
    → ltb (length (split s)) 5 ≡ false
    → refine_key key hs ≡ join (take 5 (split s)) ++ dot ∷ wildcard ∷ []
unfolding refine_key
refine_key_of_long key hs s refined found long = rw (refined, refine_key, found, long) refl

-- Refining a key a second time by the same headers changes nothing.
refine_key-refine_key :
    (key : Bytes) (hs : List Header) → refine_key (refine_key key hs) hs ≡ refine_key key hs
refine_key-refine_key key hs = elim (refine_key_cases key hs) [
  | inl same ↦ ap (λ k. refine_key k hs) same
  | inr (s, found, long, eq) ↦
      ap (λ k. refine_key k hs) eq
      ∙ refine_key_of_long (join (take 5 (split s)) ++ dot ∷ wildcard ∷ []) hs s
          (is_unrefined-refined (join (take 5 (split s)))) found long
      ∙ sym eq
]

-- A key that ends in the wildcard, and a subject header of five tokens or more.
pub IsRefinable : Bytes → List Header → Type 0
IsRefinable key hs =
    (k : Bytes) × (s : Bytes) × (key ≡ k ++ wildcard ∷ []) × IsSubject hs s × (5 ≤ length (split s))

last-append : (k : Bytes) (x : ℕ) → last (k ++ x ∷ []) ≡ some x
unfolding last
last-append [] x = refl
last-append (y ∷ []) x = refl
last-append (y ∷ z ∷ k) x = last-append (z ∷ k) x

last-eq-some : (key : Bytes) (x : ℕ) → last key ≡ some x → (k : Bytes) × (key ≡ k ++ x ∷ [])
unfolding last
last-eq-some [] x h = cc
last-eq-some (y ∷ []) x h = let same : y ≡ x = cc in ([], ap (λ z. z ∷ []) same)
last-eq-some (y ∷ z ∷ zs) x h =
    let (k, eq) = last-eq-some (z ∷ zs) x h in (y ∷ k, ap (λ ks. y ∷ ks) eq)

is_unrefined-append : (k : Bytes) → is_unrefined (k ++ wildcard ∷ []) ≡ false
unfolding is_unrefined
is_unrefined-append k = rw (last-append k wildcard, is_unrefined) refl

is_unrefined-eq-false :
    (key : Bytes) → is_unrefined key ≡ false → (k : Bytes) × (key ≡ k ++ wildcard ∷ [])
unfolding is_unrefined
is_unrefined-eq-false key h = elim (Option-cases (last key)) [
  | inl gone ↦ let no : true ≡ false = (rw (gone, is_unrefined) at h) in cc
  | inr (x, found) ↦
      let same : x ≡ wildcard =
        ground (arith, ==_iff x wildcard, (rw (found, is_unrefined) at h)) in
      last-eq-some key wildcard (found ∙ ap some same)
]

-- A key that does not end in the wildcard `>`, or that comes without a subject header of at least five
-- tokens, is left as it is; every other one becomes the first five tokens of the subject and the wildcard
-- `.>`: the subject is these tokens, or goes on behind them with a dot.
pub refine_key_matches :
    (key : Bytes) (hs : List Header)
    → (¬ IsRefinable key hs × (refine_key key hs ≡ key))
      ⊎ (IsRefinable key hs
          × (s : Bytes) × (p : Bytes) × IsSubject hs s
          × (refine_key key hs ≡ p ++ dot ∷ wildcard ∷ [])
          × (p ≡ join (take 5 (split s)))
          × IsTokenPrefix p s)
unfolding refine_key IsRefinable
refine_key_matches key hs = elim (Bool-cases (is_unrefined key)) [
  | inl plain ↦ inl (
    λ (k, s, ends, found, enough).
        let no = sym (ap is_unrefined ends ∙ is_unrefined-append k) ∙ plain in cc,
    rw (plain, refine_key) refl,
  )
  | inr wild ↦ elim (Option-cases (subject_of hs)) [
    | inl missing ↦ inl (
      λ (k, s, ends, found, enough). let no = sym missing ∙ subject_of_subject hs s found in cc,
      rw (wild, refine_key, missing) refl,
    )
    | inr (s, found) ↦ elim (Bool-cases (ltb (length (split s)) 5)) [
      | inl short ↦ inl (
        λ (k, s', ends, found', enough).
            let known = subject_of_subject hs s' found' in
            let same : s' ≡ s = cc in
            let no : ⊥ = ground (arith, ap (λ x. length (split x)) same) in no,
        rw (wild, refine_key, found, short) refl,
      )
      | inr long ↦
          let (k, ends) = is_unrefined-eq-false key wild in
          inr (
            (k, s, ends, subject_of-IsSubject hs s found, ground arith),
            s,
            join (take 5 (split s)),
            subject_of-IsSubject hs s found,
            refine_key_of_long key hs s wild found long,
            refl,
            join-take-split 4 s,
          )
    ]
  ]
]
