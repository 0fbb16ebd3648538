-- ===== src/Kafka/Varint.antt =====
-- `binary.PutVarint` and `binary.ReadVarint` of encoding/binary, with which server/kafka/pb_serializer.go
-- and pb_deserializer.go write and read the message indexes.
use nats_kafka.Base.{
  ℕ, zero, suc, ◌+◌, ◌*◌, ◌/◌, ◌%◌, ◌^◌, ◌<◌, ◌≤◌, ltb, ◌==◌, ◌≡◌, refl, ap, ◌∙◌, sym, false, [],
  ◌∷◌, ◌++◌, if◌then◌else◌, Bool-cases, inl, inr, arith, lt→ltb,
}
use native.Mathlib.Nat.{mul_assoc, add-mul}
use nats_kafka.Base.Int.{ℤ, pos, negsuc}
use nats_kafka.Base.Outcome.{Outcome, ok, fail, panic, message, ◌>>=◌, >>=-eq-ok, ok_inj}
use nats_kafka.Kafka.{Bytes}

-- `PutUvarint` into a buffer with room for `room` bytes: the bytes that it writes. A byte behind the
-- buffer is an index out of range.
unfoldable pub put_uvarint : ℕ → ℕ → Outcome Bytes
put_uvarint zero u = panic
put_uvarint (suc room) u =
    let rest = put_uvarint room (u / 128) in
    if ltb u 128 then ok (u ∷ []) else (do bs ← rest; ok ((u % 128 + 128) ∷ bs))

-- The 64-bit pattern that stands for an integer, its sign in the last bit.
abbrev pub zigzag : ℤ → ℕ
zigzag (pos n) = 2 * n % 2 ^ 64
zigzag (negsuc n) = (2 * n + 1) % 2 ^ 64

abbrev pub put_varint : ℕ → ℤ → Outcome Bytes
put_varint room n = put_uvarint room (zigzag n)

-- `ReadUvarint`, with `left` of its ten turns to come, `place` the weight of the next seven bits and
-- `u` what was read: the result, and the bytes that are left. The bits of two turns do not overlap, and
-- fit 64 bits, so that `|` is the sum.
unfoldable pub read_uvarint : (left place u : ℕ) → Bytes → Outcome (ℕ × Bytes)
read_uvarint zero place u bs = fail (message "binary: varint overflows a 64-bit integer")
read_uvarint (suc left) place u [] = fail (message (if left == 9 then "EOF" else "unexpected EOF"))
read_uvarint (suc zero) place u (b ∷ bs) =
    if ltb 1 b
    then fail (message "binary: varint overflows a 64-bit integer")
    else ok (u + b * place, bs)
read_uvarint (suc (suc left)) place u (b ∷ bs) =
    let rest = read_uvarint (suc left) (place * 128) (u + b % 128 * place) bs in
    if ltb b 128 then ok (u + b * place, bs) else rest

abbrev pub unzigzag : ℕ → ℤ
unzigzag u = if u % 2 == 0 then pos (u / 2) else negsuc (u / 2)

unfoldable pub read_varint : Bytes → Outcome (ℤ × Bytes)
unfolding read_uvarint
read_varint bs = do (u, rest) ← read_uvarint 10 1 0 bs; ok (unzigzag u, rest)

sevens : (v p u : ℕ) → u + v % 128 * p + v / 128 * (p * 128) ≡ u + v * p
sevens v p u =
    let whole : v ≡ v % 128 + v / 128 * 128 = omega arith in
    let split : (v % 128 + v / 128 * 128) * p ≡ v % 128 * p + v / 128 * 128 * p =
      add-mul (v % 128) (v / 128 * 128) p in
    let swap : v / 128 * 128 * p ≡ v / 128 * (128 * p) = mul_assoc (v / 128) 128 p in
    let turn : v / 128 * (128 * p) ≡ v / 128 * (p * 128) = ap (λ x. v / 128 * x) (omega arith) in
    let all : v * p ≡ (v % 128 + v / 128 * 128) * p = ap (λ x. x * p) whole in omega arith

read_uvarint_continued :
    (left place u b : ℕ) (bs : Bytes)
    → ltb b 128 ≡ false
    → read_uvarint (suc (suc left)) place u (b ∷ bs)
      ≡ read_uvarint (suc left) (place * 128) (u + b % 128 * place) bs
unfolding read_uvarint
read_uvarint_continued left place u b bs h = rw h refl

read_uvarint-put_uvarint :
    (room left place u v : ℕ) (bs rest : Bytes)
    → room ≤ left
    → put_uvarint room v ≡ ok bs
    → read_uvarint (suc left) place u (bs ++ rest) ≡ ok (u + v * place, rest)
unfolding put_uvarint read_uvarint
read_uvarint-put_uvarint zero left place u v bs rest h e = cc
read_uvarint-put_uvarint (suc room) zero place u v bs rest h e =
    let no : ⊥ = omega arith in elim no [ ]
read_uvarint-put_uvarint (suc room) (suc left) place u v bs rest h e =
    elim (Bool-cases (ltb v 128)) [
      | inl small ↦ let same : v ∷ [] ≡ bs = ok_inj (rw small at e) in rw (sym same, small) refl
      | inr large ↦
          let (more, written, same) = >>=-eq-ok (put_uvarint room (v / 128)) _ (rw large at e) in
          let next =
            read_uvarint-put_uvarint room left (place * 128) (u + v % 128 * place) (v / 128) more
              rest (omega arith) written in
          let weight : u + (v % 128 + 128) % 128 * place ≡ u + v % 128 * place =
            ap (λ x. u + x * place) (omega arith) in
          rw (sym (ok_inj same)) (
            read_uvarint_continued left place u (v % 128 + 128) (more ++ rest) (ground arith)
            ∙ ap (λ x. read_uvarint (suc left) (place * 128) x (more ++ rest)) weight
            ∙ next
            ∙ ap (λ x. ok (x, rest)) (sevens v place u))
    ]

one : (n : ℕ) → 0 + n * 1 ≡ n
one n = omega arith

put_uvarint_fits :
    (room u : ℕ) → u < 128 ^ suc room → (bs : Bytes) × (put_uvarint (suc room) u ≡ ok bs)
unfolding put_uvarint
put_uvarint_fits zero u h = (u ∷ [], rw (lt→ltb u 128 (omega arith)) refl)
put_uvarint_fits (suc room) u h = elim (Bool-cases (ltb u 128)) [
  | inl small ↦ (u ∷ [], rw small refl)
  | inr large ↦
      let (bs, written) = put_uvarint_fits room (u / 128) (omega arith) in
      ((u % 128 + 128) ∷ bs, rw (large, written) refl)
]

-- A buffer of eight bytes holds every count and every index below 2^55, and what is written is read
-- back, whatever follows it.
pub read_varint-put_varint :
    (n : ℕ)
    → n < 2 ^ 55
    → (bs : Bytes) × (put_varint 8 (pos n) ≡ ok bs)
      × ((rest : Bytes) → read_varint (bs ++ rest) ≡ ok (pos n, rest))
unfolding read_varint
read_varint-put_varint n h =
    let (bs, written) = put_uvarint_fits 7 (2 * n % 2 ^ 64) (omega arith) in
    let even : 0 + 2 * n % 2 ^ 64 * 1 ≡ 2 * n = omega arith in
    let half : unzigzag (2 * n) ≡ pos n =
      let two : 2 * n % 2 ≡ 0 = omega arith in
      let back : 2 * n / 2 ≡ n = omega arith in rw (two, back) refl in
    (
      bs,
      written,
      λ rest.
          rw (read_uvarint-put_uvarint 8 9 1 0 (2 * n % 2 ^ 64) bs rest (omega arith) written, even)
            (ap (λ x. ok (x, rest)) half),
    )
