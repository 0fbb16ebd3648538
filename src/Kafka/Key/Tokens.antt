-- ===== src/Kafka/Key/Tokens.antt =====
-- The tokens of a subject, put together again.
use nats_kafka.Base.{
  ℕ, ◌==◌, List, [], ◌∷◌, ◌++◌, true, false, take, ==_iff, ◌≡◌, refl, Bool-cases, ◌⊎◌, inl, inr, ap,
  sym, ◌∙◌, subst, zero, suc, append_assoc,
}
use nats_kafka.Kafka.{Bytes}
use nats_kafka.Kafka.Key.{dot, prepend, split, join}

-- A subject is its tokens put together again.
join-prepend : (x : ℕ) (t : Bytes) (ts : List Bytes) → join ((x ∷ t) ∷ ts) ≡ x ∷ join (t ∷ ts)
unfolding join
join-prepend x t [] = refl
join-prepend x t (u ∷ ts) = refl

-- A list that is not empty, by its head and its tail.
split_cases : (s : Bytes) → (t : Bytes) × (ts : List Bytes) × (split s ≡ t ∷ ts)
unfolding split prepend
split_cases [] = ([], [], refl)
split_cases (x ∷ xs) =
    let (t, ts, eq) = split_cases xs in
    elim (Bool-cases (x == dot)) [
      | inl is_dot ↦ ([], split xs, rw is_dot refl)
      | inr other ↦ (x ∷ t, ts, rw (other, eq) refl)
    ]

split_of_dot : (x : ℕ) (xs : Bytes) → x == dot ≡ true → split (x ∷ xs) ≡ [] ∷ split xs
unfolding split
split_of_dot x xs h = rw h refl

split_of_other : (x : ℕ) (xs : Bytes) → x == dot ≡ false → split (x ∷ xs) ≡ prepend x (split xs)
unfolding split
split_of_other x xs h = rw h refl

join_none_cons : (t : Bytes) (ts : List Bytes) → join ([] ∷ t ∷ ts) ≡ dot ∷ join (t ∷ ts)
unfolding join
join_none_cons t ts = refl

prepend_cons : (x : ℕ) (t : Bytes) (ts : List Bytes) → prepend x (t ∷ ts) ≡ (x ∷ t) ∷ ts
unfolding prepend
prepend_cons x t ts = refl

join-split : (s : Bytes) → join (split s) ≡ s
unfolding split join
join-split [] = refl
join-split (x ∷ xs) =
    let (t, ts, eq) = split_cases xs in
    let ih = ap join (sym eq) ∙ join-split xs in
    elim (Bool-cases (x == dot)) [
      | inl is_dot ↦
          ap join (split_of_dot x xs is_dot ∙ ap (◌∷◌ []) eq)
          ∙ join_none_cons t ts
          ∙ ap (◌∷◌ dot) ih
          ∙ ap (λ y. y ∷ xs) (sym ((==_iff x dot).0 is_dot))
      | inr other ↦
          ap join (split_of_other x xs other ∙ ap (prepend x) eq ∙ prepend_cons x t ts)
          ∙ join-prepend x t ts
          ∙ ap (◌∷◌ x) ih
    ]

-- The first tokens are a prefix of the subject that a dot ends, or the whole of it.
abbrev pub IsTokenPrefix : Bytes → Bytes → Type 0
IsTokenPrefix p s = (s ≡ p) ⊎ ((rest : Bytes) × (s ≡ p ++ dot ∷ rest))

join-take :
    (n : ℕ) (t : Bytes) (ts : List Bytes)
    → IsTokenPrefix (join (take (suc n) (t ∷ ts))) (join (t ∷ ts))
unfolding join
join-take zero t [] = inl refl
join-take zero t (u ∷ ts) = inr (join (u ∷ ts), refl)
join-take (suc n) t [] = inl refl
join-take (suc n) t (u ∷ ts) = elim (join-take n u ts) [
  | inl whole ↦ inl (ap (λ r. t ++ dot ∷ r) whole)
  | inr (rest, eq) ↦ inr (
    rest,
    ap (λ r. t ++ dot ∷ r) eq
        ∙ sym (append_assoc t (dot ∷ join (take (suc n) (u ∷ ts))) (dot ∷ rest)),
  )
]

pub join-take-split : (n : ℕ) (s : Bytes) → IsTokenPrefix (join (take (suc n) (split s))) s
join-take-split n s =
    let (t, ts, eq) = split_cases s in
    subst (IsTokenPrefix (join (take (suc n) (split s)))) (join-split s)
      (subst (λ l. IsTokenPrefix (join (take (suc n) l)) (join l)) (sym eq) (join-take n t ts))
