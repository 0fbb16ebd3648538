-- ===== src/Kafka/Partitioner/Keyed.antt =====
-- The counters stay one for each partition, and every message gets a partition.
use nats_kafka.Base.{
  ℕ, zero, suc, ◌+◌, ◌-◌, ◌%◌, ◌^◌, ◌<◌, ◌≤◌, [], ◌∷◌, true, false, some, length, bytes_eq,
  bytes_eq_refl, bytes_eq_sound, ◌≡◌, refl, sym, ap, ◌∙◌, subst, arith, Any, Bool-cases, ◌⊎◌, inl,
  inr,
}
use nats_kafka.Base.Outcome.{ok, ok_inj}
use nats_kafka.Kafka.{Bytes}
use nats_kafka.Kafka.Words.{put_uint32, pack_int32, unpack_int32, unpack_int32-put_uint32}
use nats_kafka.Kafka.Partitioner.{
  Counters, get, put, remove, shrink, extend, find_partition_with_min_bytes, partition,
}
use nats_kafka.Kafka.Partitioner.Least.{find_partition_with_min_bytes_entry}

-- The entries are those of the partitions `i`, `i + 1`, ...
unfoldable pub Numbered : ℕ → Counters → Type 0
Numbered i [] = Unit {0}
Numbered i (e ∷ s) = (e.0 ≡ put_uint32 i) × Numbered (suc i) s

-- One counter for each of `n` partitions.
unfoldable pub IsCounted : ℕ → Counters → Type 0
IsCounted n s = (length s ≡ n) × Numbered 0 s

-- `IterBuffered` hands out the entries, in an order of its own.
pub record IsArrangement (order : Counters → Counters) : Type 0 where
  pub entries : (s : Counters) (e : Bytes × ℕ) → Any (λ x. e ≡ x) (order s) → Any (λ x. e ≡ x) s
  pub kept : (s : Counters) → length (order s) ≡ length s

put_uint32_inj : (v w : ℕ) → v < 2 ^ 32 → w < 2 ^ 32 → put_uint32 v ≡ put_uint32 w → v ≡ w
unfolding put_uint32
put_uint32_inj v w hv hw h =
    ok_inj
      (sym (unpack_int32-put_uint32 v [] hv) ∙ ap unpack_int32 h ∙ unpack_int32-put_uint32 w [] hw)

unpack_int32_of_key : (k : Bytes) (p : ℕ) → k ≡ put_uint32 p → p < 2 ^ 32 → unpack_int32 k ≡ ok p
unfolding put_uint32
unpack_int32_of_key k p eq h = ap unpack_int32 eq ∙ unpack_int32-put_uint32 p [] h

same_key : (k k' : Bytes) → k ≡ k' → bytes_eq k k' ≡ true
same_key k k' eq = subst (λ x. bytes_eq k x ≡ true) eq (bytes_eq_refl k)

other_key :
    (k : Bytes) (v w : ℕ)
    → k ≡ put_uint32 v
    → v < w
    → w < 2 ^ 32
    → bytes_eq k (put_uint32 w) ≡ false
other_key k v w eq less h = elim (Bool-cases (bytes_eq k (put_uint32 w))) [
  | inr different ↦ different
  | inl same ↦
      let v_eq =
        put_uint32_inj v w (omega arith) h (sym eq ∙ bytes_eq_sound k (put_uint32 w) same) in
      let equal = subst (λ x. x < w) v_eq less in ground arith
]

-- A counter for the next partition is put last.
put-Numbered_next :
    (i w v : ℕ) (s : Counters)
    → w ≡ i + length s
    → w < 2 ^ 32
    → Numbered i s
    → Numbered i (put (put_uint32 w) v s) × (length (put (put_uint32 w) v s) ≡ suc (length s))
unfolding Numbered put
put-Numbered_next i w v [] eq h n = ((ap put_uint32 (omega arith), tt), refl)
put-Numbered_next i w v (e ∷ s) eq h n =
    let (rest, len) = put-Numbered_next (suc i) w v s (omega arith) h n.1 in
    rw (other_key e.0 i w n.0 (omega arith) h) ((n.0, rest), ap suc len)

-- The counter of the last partition is removed.
remove-Numbered_last :
    (i w : ℕ) (s : Counters)
    → suc w ≡ i + length s
    → i ≤ w
    → w < 2 ^ 32
    → Numbered i s
    → Numbered i (remove (put_uint32 w) s) × (suc (length (remove (put_uint32 w) s)) ≡ length s)
unfolding Numbered remove
remove-Numbered_last i w [] eq le h n = omega arith
remove-Numbered_last i w (e ∷ []) eq le h n =
    let only : i ≡ w = omega arith in
    rw (same_key e.0 (put_uint32 w) (n.0 ∙ ap put_uint32 only)) (tt, refl)
remove-Numbered_last i w (e ∷ e' ∷ s) eq le h n =
    let (rest, len) = remove-Numbered_last (suc i) w (e' ∷ s) (omega arith) (omega arith) h n.1 in
    rw (other_key e.0 i w n.0 (omega arith) h) ((n.0, rest), ap suc len)

-- Writing a counter that is there keeps the partitions.
put-Numbered_present :
    (i v : ℕ) (k : Bytes) (s : Counters) (e : Bytes × ℕ)
    → e.0 ≡ k
    → Any (λ x. e ≡ x) s
    → Numbered i s
    → Numbered i (put k v s) × (length (put k v s) ≡ length s)
unfolding Numbered put
put-Numbered_present i v k [] e eq a n = elim a [ ]
put-Numbered_present i v k (x ∷ s) e eq a n = elim (Bool-cases (bytes_eq x.0 k)) [
  | inl same ↦ rw same ((sym (bytes_eq_sound x.0 k same) ∙ n.0, n.1), refl)
  | inr other ↦ elim a [
    | inl here ↦ let same = same_key x.0 k (ap (λ y. y.0) (sym here) ∙ eq) in cc
    | inr there ↦
        let (rest, len) = put-Numbered_present (suc i) v k s e eq there n.1 in
        rw other ((n.0, rest), ap suc len)
  ]
]

shrink-Numbered :
    (from count : ℕ) (s : Counters)
    → length s ≡ from + count
    → from + count < 2 ^ 31
    → Numbered 0 s
    → (s' : Counters) × (shrink from count s ≡ ok s') × IsCounted from s'
unfolding shrink IsCounted pack_int32
shrink-Numbered from zero s eq h n = (s, refl, (omega arith, n))
shrink-Numbered from (suc count) s eq h n =
    let (n', len) =
      remove-Numbered_last 0 (from + count) s (omega arith) (omega arith) (omega arith) n in
    shrink-Numbered from count (remove (put_uint32 (from + count)) s) (omega arith) (omega arith) n'

extend-Numbered :
    (from count : ℕ) (s : Counters)
    → length s ≡ from
    → from + count < 2 ^ 31
    → Numbered 0 s
    → (s' : Counters) × (extend from count s ≡ ok s') × IsCounted (from + count) s'
unfolding extend IsCounted pack_int32
extend-Numbered from zero s eq h n = (s, refl, (omega arith, n))
extend-Numbered from (suc count) s eq h n =
    let (n', len) = put-Numbered_next 0 from 0 s (omega arith) (omega arith) n in
    let (s', run, (len', m)) =
      extend-Numbered (suc from) count (put (put_uint32 from) 0 s) (omega arith) (omega arith) n' in
    (s', run, (omega arith, m))

-- An entry is the counter of a partition, and `Get` finds it.
entry_of_Numbered :
    (i : ℕ) (s : Counters) (e : Bytes × ℕ)
    → Any (λ x. e ≡ x) s
    → Numbered i s
    → (p : ℕ) × (i ≤ p) × (p < i + length s) × (e.0 ≡ put_uint32 p)
unfolding Numbered
entry_of_Numbered i [] e a n = elim a [ ]
entry_of_Numbered i (x ∷ s) e (inl here) n = (i, omega arith, omega arith, ap (λ y. y.0) here ∙ n.0)
entry_of_Numbered i (x ∷ s) e (inr there) n =
    let (p, low, high, eq) = entry_of_Numbered (suc i) s e there n.1 in
    (p, omega arith, omega arith, eq)

get_of_entry :
    (k : Bytes) (s : Counters) (e : Bytes × ℕ)
    → e.0 ≡ k
    → Any (λ x. e ≡ x) s
    → (v : ℕ) × (get k s ≡ some v)
unfolding get
get_of_entry k [] e eq a = elim a [ ]
get_of_entry k (x ∷ s) e eq a = elim (Bool-cases (bytes_eq x.0 k)) [
  | inl same ↦ (x.1, rw same refl)
  | inr other ↦ elim a [
    | inl here ↦ let same = same_key x.0 k (ap (λ y. y.0) (sym here) ∙ eq) in cc
    | inr there ↦ let (v, found) = get_of_entry k s e eq there in (v, rw other found)
  ]
]

found_of_nonempty :
    (s : Counters)
    → 0 < length s
    → (best : Bytes × ℕ) × (find_partition_with_min_bytes s ≡ best.0) × Any (λ x. best ≡ x) s
found_of_nonempty [] h = absurd (omega arith)
found_of_nonempty (e ∷ s) h = find_partition_with_min_bytes_entry e s

le_or_lt : (a b : ℕ) → (a ≤ b) ⊎ (b < a)
le_or_lt a b = omega arith

shrink_none : (from : ℕ) (s : Counters) → shrink from 0 s ≡ ok s
unfolding shrink
shrink_none from s = refl

found_of_arranged :
    (order : Counters → Counters) (s : Counters)
    → IsArrangement order
    → 0 < length s
    → (best : Bytes × ℕ) × (find_partition_with_min_bytes (order s) ≡ best.0)
      × Any (λ x. best ≡ x) s
found_of_arranged order s arr h =
    let (best, key, found) =
      found_of_nonempty (order s) (subst (λ n. 0 < n) (sym (arr.kept s)) h) in
    (best, key, arr.entries s best found)

-- Removing, then adding counters makes one for each of `num` partitions.
resize-IsCounted :
    (m num : ℕ) (s : Counters)
    → m < 2 ^ 31
    → num < 2 ^ 31
    → IsCounted m s
    → (s1 : Counters) × (s2 : Counters) × (shrink num (length s - num) s ≡ ok s1)
      × (extend (length s1) (num - length s1) s1 ≡ ok s2)
      × IsCounted num s2
unfolding IsCounted
resize-IsCounted m num s hm hn (len, n) = elim (le_or_lt num (length s)) [
  | inl le ↦
      let (s1, run1, (len1, n1)) =
        shrink-Numbered num (length s - num) s (omega arith) (omega arith) n in
      let (s2, run2, (len2, n2)) =
        extend-Numbered (length s1) (num - length s1) s1 refl (omega arith) n1 in
      (s1, s2, run1, run2, (omega arith, n2))
  | inr lt ↦
      let (s2, run2, (len2, n2)) =
        extend-Numbered (length s) (num - length s) s refl (omega arith) n in
      let nothing : 0 ≡ length s - num = omega arith in
      (
        s,
        s2,
        subst (λ c. shrink num c s ≡ ok s) nothing (shrink_none num s),
        run2,
        (omega arith, n2),
      )
]

-- `Partition` succeeds for every message as long as the topic has a partition: the number that it
-- gives is one of the topic's, also after the number of partitions has grown or shrunk, and there is
-- again one counter for each partition.
pub partition_lem :
    (order : Counters → Counters) (size m num : ℕ) (s : Counters)
    → IsArrangement order
    → 0 < num
    → num < 2 ^ 31
    → m < 2 ^ 31
    → IsCounted m s
    → (p : ℕ) × (s' : Counters) × (partition order size num s ≡ ok (p, s'))
      × (p < num)
      × IsCounted num s'
unfolding partition IsCounted
partition_lem order size m num s arr h0 hn hm counted =
    let (s1, s2, run1, run2, (len, n)) = resize-IsCounted m num s hm hn counted in
    let (best, least, found) = found_of_arranged order s2 arr (omega arith) in
    let (p, low, high, key) = entry_of_Numbered 0 s2 best found n in
    let (v, got) = get_of_entry best.0 s2 best refl found in
    let (n', len') = put-Numbered_present 0 ((v + size) % 2 ^ 64) best.0 s2 best refl found n in
    let unpacked = unpack_int32_of_key best.0 p key (omega arith) in
    (
      p,
      put best.0 ((v + size) % 2 ^ 64) s2,
      rw (run1, run2, least, got, unpacked) refl,
      omega arith,
      (omega arith, n'),
    )
