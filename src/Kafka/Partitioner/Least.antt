-- ===== src/Kafka/Partitioner/Least.antt =====
-- Which partition the balancer takes.
use nats_kafka.Base.{
  ℕ, ◌<◌, ◌≤◌, [], ◌∷◌, ◌≡◌, refl, ◌⊎◌, inl, inr, arith, All, Any, ltb→lt, lt→ltb, ==_iff, ◌∙◌, sym,
  ap, subst, List,
}
use nats_kafka.Kafka.{Bytes}
use nats_kafka.Kafka.Partitioner.{Counters, less, least_from, find_partition_with_min_bytes}

less_positive :
    (best e : Bytes × ℕ)
    → 0 < best.1
    → 0 < e.1
    → (0 < (less best e).1) × ((less best e).1 ≤ best.1) × ((less best e).1 ≤ e.1)
unfolding less
less_positive best e hb he = ground (arith, ltb→lt e.1 best.1, lt→ltb e.1 best.1, ==_iff best.1 0)

least_from_minimal :
    (best : Bytes × ℕ) (s : Counters)
    → 0 < best.1
    → All (λ e. 0 < e.1) s
    → ((least_from best s).1 ≤ best.1) × All (λ e. (least_from best s).1 ≤ e.1) s
unfolding least_from
least_from_minimal best [] hb hs = (omega arith, tt)
least_from_minimal best (e ∷ s) hb hs =
    let (positive, below, below_e) = less_positive best e hb hs.0 in
    let (h, rest) = least_from_minimal (less best e) s positive hs.1 in
    (omega arith, (omega arith, rest))

less_either : (best e : Bytes × ℕ) → (less best e ≡ best) ⊎ (less best e ≡ e)
unfolding less
less_either best e = ground arith

least_from-Any :
    (best : Bytes × ℕ) (s : Counters)
    → (least_from best s ≡ best) ⊎ Any (λ e. least_from best s ≡ e) s
unfolding least_from
least_from-Any best [] = inl refl
least_from-Any best (e ∷ s) = elim (least_from-Any (less best e) s) [
  | inr found ↦ inr (inr found)
  | inl first ↦ elim (less_either best e) [
    | inl same ↦ inl (first ∙ same)
    | inr entry ↦ inr (inl (first ∙ entry))
  ]
]

-- The entry that the loop ends with is one of the map.
least_from_first-Any :
    (e : Bytes × ℕ) (s : Counters) → Any (λ x. least_from ([], 0) (e ∷ s) ≡ x) (e ∷ s)
unfolding least_from less
least_from_first-Any e s = elim (least_from-Any e s) [
  | inl first ↦ inl first
  | inr found ↦ inr found
]

Any-weaken :
    {A : Type 0} {P Q : A → Type 0} (xs : List A) → ((x : A) → P x → Q x) → Any P xs → Any Q xs
Any-weaken [] f h = elim h [ ]
Any-weaken (x ∷ xs) f (inl h) = inl (f x h)
Any-weaken (x ∷ xs) f (inr h) = inr (Any-weaken xs f h)

-- The partition that is found has an entry in the map.
pub find_partition_with_min_bytes_entry :
    (e : Bytes × ℕ) (s : Counters)
    → (best : Bytes × ℕ) × (find_partition_with_min_bytes (e ∷ s) ≡ best.0)
      × Any (λ x. best ≡ x) (e ∷ s)
unfolding find_partition_with_min_bytes
find_partition_with_min_bytes_entry e s =
    (least_from ([], 0) (e ∷ s), refl, least_from_first-Any e s)

-- Once every partition has received bytes, in whatever order the map hands them out, the balancer takes a
-- partition that has received the fewest: it has an entry in the map, and no counter is below that one.
pub find_partition_with_min_bytes_minimal :
    (e : Bytes × ℕ) (s : Counters)
    → All (λ y. 0 < y.1) (e ∷ s)
    → Any
        (λ x. (x.0 ≡ find_partition_with_min_bytes (e ∷ s)) × All (λ y. x.1 ≤ y.1) (e ∷ s))
        (e ∷ s)
unfolding find_partition_with_min_bytes least_from less
find_partition_with_min_bytes_minimal e s h =
    let least : All (λ y. (least_from e s).1 ≤ y.1) (e ∷ s) = least_from_minimal e s h.0 h.1 in
    Any-weaken (e ∷ s)
      (λ x found.
        (sym (ap (λ y. y.0) found), subst (λ b. All (λ y. b.1 ≤ y.1) (e ∷ s)) found least))
      (least_from_first-Any e s)

-- A counter that is still 0 is passed over when another entry comes after it.
skips_empty : find_partition_with_min_bytes ((0 ∷ [], 0) ∷ (1 ∷ [], 7) ∷ []) ≡ 1 ∷ []
unfolding find_partition_with_min_bytes least_from less
skips_empty = refl
