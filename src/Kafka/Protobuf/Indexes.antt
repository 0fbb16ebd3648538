-- ===== src/Kafka/Protobuf/Indexes.antt =====
-- The message indexes of a payload, as other clients of the registry write them.
use nats_kafka.Base.{
  ℕ, suc, ◌<◌, ◌≤◌, ◌^◌, ltb, List, [], ◌∷◌, ◌++◌, append_assoc, ◌≡◌, refl, sym, ap, ◌∙◌, All,
  length, arith, false, map,
}
use nats_kafka.Base.Int.{ℤ, pos}
use nats_kafka.Base.Outcome.{Outcome, ok, ◌>>=◌, >>=-eq-ok, ok_inj}
use nats_kafka.Kafka.{Bytes}
use nats_kafka.Kafka.Varint.{put_varint, read_varint, read_varint-put_varint}
use nats_kafka.Kafka.Protobuf.{
  Descriptors, read_rest, decode_protobuf_structures, read_indexes, read_message_types, make_limit,
}

-- Each index as a varint.
unfoldable pub put_indexes : List ℕ → Outcome Bytes
put_indexes [] = ok []
put_indexes (i ∷ is) = do here ← put_varint 8 (pos i); rest ← put_indexes is; ok (here ++ rest)

read_varint_of_written :
    (n : ℕ) (bs rest : Bytes)
    → n < 2 ^ 55
    → put_varint 8 (pos n) ≡ ok bs
    → read_varint (bs ++ rest) ≡ ok (pos n, rest)
read_varint_of_written n bs rest h e =
    let (bs', written, back) = read_varint-put_varint n h in
    ap (λ x. read_varint (x ++ rest)) (ok_inj (sym e ∙ written)) ∙ back rest

module _ (k : Descriptors) where
  open k use {File, MessageType, message_types}

  read_indexes-put_indexes :
      (is : List ℕ) (bs rest : Bytes)
      → All (λ i. i < 2 ^ 55) is
      → put_indexes is ≡ ok bs
      → read_indexes k (length is) (bs ++ rest) ≡ ok (map pos is, rest)
  unfolding read_indexes put_indexes
  read_indexes-put_indexes [] bs rest h e = ap (λ x. ok ([], x ++ rest)) (sym (ok_inj e))
  read_indexes-put_indexes (i ∷ is) bs rest h e =
      let (here, written, e') = >>=-eq-ok (put_varint 8 (pos i)) _ e in
      let (more, others, same) = >>=-eq-ok (put_indexes is) _ e' in
      rw
        (
          sym (ok_inj same),
          append_assoc here more rest,
          read_varint_of_written i here (more ++ rest) h.0 written,
          read_indexes-put_indexes is more rest h.1 others,
        )
        refl

  decode_from :
      (payload rest : Bytes) (n : ℤ)
      → read_varint payload ≡ ok (n, rest)
      → decode_protobuf_structures k payload
        ≡ (read_message_types k n rest >>= λ r. read_rest k r.1 >>= λ clean. ok (r.0, clean))
  unfolding decode_protobuf_structures
  decode_from payload rest n h = rw (h, decode_protobuf_structures) refl

  -- The deserializer reads the indexes back that were written before a message: a count, then each index
  -- as a varint. There is at least one, they fit seven bits in each of the eight bytes of the writer's
  -- buffer, and there are not more than a slice can hold.
  pub decode_protobuf_structures_of_written :
      (i : ℕ) (is : List ℕ) (count indexes body : Bytes)
      → length (i ∷ is) ≤ make_limit k
      → All (λ j. j < 2 ^ 55) (i ∷ is)
      → put_varint 8 (pos (length (i ∷ is))) ≡ ok count
      → put_indexes (i ∷ is) ≡ ok indexes
      → decode_protobuf_structures k (count ++ (indexes ++ body))
        ≡ (read_rest k body >>= λ clean. ok (map pos (i ∷ is), clean))
  unfolding read_message_types
  decode_protobuf_structures_of_written i is count indexes body few small counted written =
      let fits : ltb (make_limit k) (suc (length is)) ≡ false = ground arith in
      decode_from (count ++ (indexes ++ body)) (indexes ++ body) (pos (suc (length is)))
        (read_varint_of_written (suc (length is)) count (indexes ++ body) (omega arith) counted)
      ∙ rw (fits, read_indexes-put_indexes (i ∷ is) indexes body small written) refl
