-- ===== src/Kafka/Protobuf/RoundTrip.antt =====
-- What the deserializer makes of a message that the serializer wrote.
use nats_kafka.Base.{
  ℕ, ◌≤◌, ltb, List, [], ◌∷◌, ◌++◌, Option, none, some, ◌≡◌, refl, sym, ap, ◌∙◌, All, length,
  get_elem?, bytes_eq, bytes_eq_refl, arith, false, suc,
}
use nats_kafka.Base.Int.{pos}
use nats_kafka.Base.Outcome.{ok, ◌>>=◌, or_panic, >>=-eq-ok, ok_inj}
use nats_kafka.Kafka.{Bytes}
use nats_kafka.Kafka.Key.{split}
use nats_kafka.Kafka.Payload.{Schema}
use nats_kafka.Kafka.Varint.{put_uvarint, read_varint, read_uvarint}
use nats_kafka.Kafka.Protobuf.{
  Descriptors, TempFile, Manager, index_of, message_index, encode_indexes, build_message_indexes,
  serialize, serialize_message, append_message, deserialize, read_rest, get_file_descriptor,
  get_message_descriptor, get_message_descriptor_from_message, decode_protobuf_structures, to_json,
  descend, read_indexes, read_message_types, and_then,
}
use nats_kafka.Kafka.Protobuf.Cache.{and_then-eq-ok, get_file_descriptor_again}

module _ (k : Descriptors) where
  open k use {
    File, MessageType, Message, message_types, name, fully_qualified_name, unmarshal_json, marshal,
    unmarshal, marshal_json,
  }

  -- The full name of the first type is its name behind the parts of the package, none of which is the
  -- name of a type at the top of the file.
  unfoldable pub IsNamed : File → MessageType → Type 0
  IsNamed fd d =
      (parts : List Bytes) × (split (fully_qualified_name d) ≡ parts ++ name d ∷ [])
      × All (λ part. index_of k part 0 (message_types fd) ≡ none) parts

  index_of_first :
      (ts : List MessageType) (d : MessageType)
      → get_elem? ts 0 ≡ some d
      → index_of k (name d) 0 ts ≡ some 0
  unfolding index_of
  index_of_first [] d e = cc
  index_of_first (t ∷ ts) d e =
      let same : t ≡ d = cc in
      rw (ap (λ x. bytes_eq (name x) (name d)) same ∙ bytes_eq_refl (name d)) refl

  ltb_not : (a b : ℕ) → b ≤ a → ltb a b ≡ false
  ltb_not a b h = ground arith

  message_index_of_named :
      (ts : List MessageType) (d : MessageType) (parts : List Bytes)
      → get_elem? ts 0 ≡ some d
      → All (λ part. index_of k part 0 ts ≡ none) parts
      → message_index k ts (parts ++ name d ∷ []) ≡ ok (0 ∷ [], 1)
  unfolding message_index put_uvarint
  message_index_of_named ts d [] e h = rw (index_of_first ts d e, message_index) refl
  message_index_of_named ts d (part ∷ parts) e h =
      rw (h.0, message_index) (message_index_of_named ts d parts e h.1)

  encode_indexes_of_named :
      (fd : File) (d : MessageType)
      → get_elem? (message_types fd) 0 ≡ some d
      → IsNamed fd d
      → encode_indexes k fd (fully_qualified_name d) ≡ ok (2 ∷ [], 0 ∷ [])
  unfolding encode_indexes put_uvarint IsNamed
  encode_indexes_of_named fd d e (parts, named, others) =
      rw (named, message_index_of_named (message_types fd) d parts e others) refl

  decode_of_first :
      (wire : Bytes)
      → decode_protobuf_structures k (2 ∷ 0 ∷ wire)
        ≡ (read_rest k wire >>= λ clean. ok (pos 0 ∷ [], clean))
  unfolding decode_protobuf_structures read_varint read_uvarint read_message_types read_indexes
  decode_of_first wire = refl

  descend_to_first :
      (ts : List MessageType) (d : MessageType)
      → get_elem? ts 0 ≡ some d
      → descend k (length ts) ts none (pos 0 ∷ []) ≡ ok (some d)
  unfolding descend
  descend_to_first [] d e = cc
  descend_to_first (t ∷ ts) d e = (rw (ltb_not (suc (length ts)) 0 (omega arith)) cc)

  pub deserialize_of_first :
      (m m' : Manager k) (t : TempFile) (schema : Schema) (fd : File) (d : MessageType)
      (wire : Bytes)
      → get_file_descriptor k m t schema ≡ (ok fd, m')
      → get_elem? (message_types fd) 0 ≡ some d
      → (deserialize k m t schema (2 ∷ 0 ∷ wire)).0
        ≡ (read_rest k wire >>= λ clean. unmarshal d clean >>= λ msg. marshal_json msg)
  unfolding deserialize decode_protobuf_structures read_varint read_uvarint read_message_types
      read_indexes get_message_descriptor_from_message to_json read_rest and_then
  deserialize_of_first m m' t schema fd d [] known e = refl
  deserialize_of_first m m' t schema fd d (b ∷ bs) known e =
      rw (known, descend_to_first (message_types fd) d e) refl

  or_panic-eq-ok : {A : Type 0} (o : Option A) {a : A} → or_panic o ≡ ok a → o ≡ some a
  or_panic-eq-ok none h = cc
  or_panic-eq-ok (some b) h = ap some (ok_inj h)

  get_message_descriptor-eq-ok :
      (m m' : Manager k) (t : TempFile) (s : Schema) (d : MessageType)
      → get_message_descriptor k m t s ≡ (ok d, m')
      → (fd : File) × (get_file_descriptor k m t s ≡ (ok fd, m'))
        × (get_elem? (message_types fd) 0 ≡ some d)
  unfolding get_message_descriptor
  get_message_descriptor-eq-ok m m' t s d h =
      let (fd, m1, parsed, first) =
        and_then-eq-ok k (get_file_descriptor k m t s)
          (λ fd m'. (or_panic (get_elem? (message_types fd) 0), m')) h in
      let same : m1 ≡ m' = ap (λ p. p.1) first in
      (
        fd,
        parsed ∙ ap (λ x. (ok fd, x)) same,
        or_panic-eq-ok (get_elem? (message_types fd) 0) (ap (λ p. p.0) first),
      )

  build_message_indexes_of_known :
      (m : Manager k) (t : TempFile) (s : Schema) (full : Bytes) (fd : File)
      → get_file_descriptor k m t s ≡ (ok fd, m)
      → build_message_indexes k m t s full ≡ (encode_indexes k fd full, m)
  unfolding build_message_indexes and_then
  build_message_indexes_of_known m t s full fd h = rw h refl

  -- The rest of `Serialize` once the descriptor of the first type is found.
  serialize_of_first :
      (m m' : Manager k) (t : TempFile) (schema : Schema) (fd : File) (d : MessageType)
      (payload value : Bytes)
      → get_file_descriptor k m t schema ≡ (ok fd, m)
      → encode_indexes k fd (fully_qualified_name d) ≡ ok (2 ∷ [], 0 ∷ [])
      → serialize_message k t schema payload d m ≡ (ok value, m')
      → (m' ≡ m)
        × (msg : Message) × (wire : Bytes) × (unmarshal_json d payload ≡ ok msg)
        × (marshal msg ≡ ok wire)
        × (value ≡ 2 ∷ 0 ∷ wire)
  unfolding serialize_message append_message and_then
  serialize_of_first m m' t schema fd d payload value known indexes h =
      let (msg, m1, read, h1) = and_then-eq-ok k (unmarshal_json d payload, m) _ h in
      let kept : m ≡ m1 = ap (λ p. p.1) read in
      let built : build_message_indexes k m1 t schema (fully_qualified_name d)
          ≡ (ok (2 ∷ [], 0 ∷ []), m) =
        ap (λ x. build_message_indexes k x t schema (fully_qualified_name d)) (sym kept)
        ∙ build_message_indexes_of_known m t schema (fully_qualified_name d) fd known
        ∙ ap (λ x. (x, m)) indexes in
      let h2 : append_message k msg (2 ∷ [], 0 ∷ []) m ≡ (ok value, m') =
        ap (λ x. and_then k x (append_message k msg)) (sym built) ∙ h1 in
      let (wire, written, same) = >>=-eq-ok (marshal msg) _ (ap (λ p. p.0) h2) in
      (sym (ap (λ p. p.1) h2), msg, wire, ap (λ p. p.0) read, written, sym (ok_inj same))

  -- A message that was written: the descriptor of its file, which the manager keeps, the first type of
  -- that file, and one index of 0 before the bytes of the message.
  pub serialize-eq-ok :
      (m m' : Manager k) (t t' : TempFile) (schema : Schema) (payload value : Bytes)
      → ((fd : File) (d : MessageType) → get_elem? (message_types fd) 0 ≡ some d → IsNamed fd d)
      → serialize k m t t' schema payload ≡ (ok value, m')
      → (fd : File) × (d : MessageType) × (msg : Message) × (wire : Bytes) × (get_file_descriptor k
            m t schema
          ≡ (ok fd, m'))
        × (get_elem? (message_types fd) 0 ≡ some d)
        × (unmarshal_json d payload ≡ ok msg)
        × (marshal msg ≡ ok wire)
        × (value ≡ 2 ∷ 0 ∷ wire)
  unfolding serialize
  serialize-eq-ok m m' t t' schema payload value named h =
      let (d, m1, described, h1) =
        and_then-eq-ok k (get_message_descriptor k m t schema)
          (serialize_message k t' schema payload) h in
      let (fd, parsed, first) = get_message_descriptor-eq-ok m m1 t schema d described in
      let (kept, msg, wire, read, written, same) =
        serialize_of_first m1 m' t' schema fd d payload value
          (get_file_descriptor_again k m m1 t t' schema schema fd parsed refl)
          (encode_indexes_of_named fd d first (named fd d first)) h1 in
      (fd, d, msg, wire, parsed ∙ ap (λ x. (ok fd, x)) (sym kept), first, read, written, same)

  -- What `Serialize` writes under a schema, `Deserialize` reads back: if the full names of the first type of
  -- each file are made of a package and the name, and no part of the package is the name of a type, then the
  -- message that was written is the one that is read, as JSON, at any later time that the manager has the same
  -- descriptors. A message that takes no bytes is the exception: reading it is an error.
  deserialize-serialize :
      (m m' : Manager k) (t t' t'' : TempFile) (schema : Schema) (payload value : Bytes)
      → ((fd : File) (d : MessageType) → get_elem? (message_types fd) 0 ≡ some d → IsNamed fd d)
      → serialize k m t t' schema payload ≡ (ok value, m')
      → (d : MessageType) × (msg : Message) × (wire : Bytes) × (unmarshal_json d payload ≡ ok msg)
        × (marshal msg ≡ ok wire)
        × ((deserialize k m' t'' schema value).0
            ≡ (read_rest k wire >>= λ clean. unmarshal d clean >>= λ msg. marshal_json msg))
  deserialize-serialize m m' t t' t'' schema payload value named h =
      let (fd, d, msg, wire, parsed, first, read, written, same) =
        serialize-eq-ok m m' t t' schema payload value named h in
      (
        d,
        msg,
        wire,
        read,
        written,
        ap (λ v. (deserialize k m' t'' schema v).0) same
            ∙ deserialize_of_first m' m' t'' schema fd d wire
                (get_file_descriptor_again k m m' t t'' schema schema fd parsed refl) first,
      )
