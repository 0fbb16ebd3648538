-- ===== src/Kafka/Payload/RoundTrip.antt =====
-- What the consumer makes of a value that the producer framed.
use nats_kafka.Base.{
  ℕ, [], ◌∷◌, ◌++◌, ◌≡◌, refl, sym, subst, ap, ◌∙◌, arith, drop, ◌<◌, length, ◌^◌, false, ◌==◌,
  Bool-cases, not, inl, inr,
}
use nats_kafka.Base.Outcome.{Outcome, ok, fail, panic, ◌>>=◌, >>=-eq-ok, is_ok, ok_inj}
use nats_kafka.Kafka.{Bytes}
use nats_kafka.Kafka.Words.{to_uint32, put_uint32, uint32, to_uint32-lt, uint32_bytes}
use nats_kafka.Kafka.Payload.{
  Schema, SchemaType, Codecs, SchemaSettings, find_schema, encode_value, decode_value,
  serialize_payload, deserialize_payload, read_header, after_header,
}

module _ (k : Codecs) where
  deserialize_payload_of_framed :
      (t : SchemaType) (spare : Bytes) (schema : Schema) (w : ℕ) (value : Bytes)
      → w < 2 ^ 32
      → k.get_schema w ≡ ok schema
      → deserialize_payload k t spare (0 ∷ put_uint32 w ++ value) ≡ decode_value k t schema value
  unfolding deserialize_payload put_uint32 after_header read_header
  deserialize_payload_of_framed t spare schema w value h known = rw (uint32_bytes w h, known) refl

  -- What `serializePayload` makes of a value under a schema, `deserializePayload` takes apart again:
  -- if the registry knows the schema under its identifier (as 32 bits), the consumer decodes, under
  -- that schema, just what the producer encoded, whatever lies behind the slice.
  pub deserialize_payload-serialize_payload :
      (p : SchemaSettings) (payload framed spare : Bytes) (schema : Schema)
      → find_schema k p ≡ ok schema
      → k.get_schema (to_uint32 schema.id) ≡ ok schema
      → serialize_payload k p payload ≡ ok framed
      → (value : Bytes) × (encode_value k p.schema_type schema payload ≡ ok value)
        × (deserialize_payload k p.schema_type spare framed
            ≡ decode_value k p.schema_type schema value)
  unfolding serialize_payload
  deserialize_payload-serialize_payload p payload framed spare schema found known h =
      let (schema', found', h1) = >>=-eq-ok (find_schema k p) _ h in
      let same : schema' ≡ schema = ok_inj (sym found' ∙ found) in
      let h2 =
        subst
          (λ s.
            (encode_value k p.schema_type s payload >>= λ value.
            ok (0 ∷ put_uint32 (to_uint32 s.id) ++ value))
            ≡ ok framed)
          same h1 in
      let (value, encoded, eq) = >>=-eq-ok (encode_value k p.schema_type schema payload) _ h2 in
      (
        value,
        encoded,
        ap (deserialize_payload k p.schema_type spare) (sym (ok_inj eq))
            ∙ deserialize_payload_of_framed p.schema_type spare schema (to_uint32 schema.id) value
                (to_uint32-lt schema.id) known,
      )

  bind_not_ok :
      {A B : Type 0} (m : Outcome A) (f : A → Outcome B)
      → ((a : A) → is_ok (f a) ≡ false)
      → is_ok (m >>= f) ≡ false
  bind_not_ok (ok a) f h = h a
  bind_not_ok (fail e) f h = refl
  bind_not_ok panic f h = refl

  after_header_of_short :
      (t : SchemaType) (schema : Schema) (rest : Bytes)
      → length rest < 4
      → is_ok (after_header k t schema (drop 3 rest)) ≡ false
  unfolding after_header
  after_header_of_short t schema [] h = refl
  after_header_of_short t schema (a ∷ []) h = refl
  after_header_of_short t schema (a ∷ b ∷ []) h = refl
  after_header_of_short t schema (a ∷ b ∷ c ∷ []) h = refl
  after_header_of_short t schema (a ∷ b ∷ c ∷ d ∷ rest) h = ground arith

  read_header_of_short :
      (t : SchemaType) (visible rest : Bytes)
      → length rest < 4
      → is_ok (read_header k t visible rest) ≡ false
  unfolding read_header after_header
  read_header_of_short t [] rest h = refl
  read_header_of_short t (a ∷ []) rest h = refl
  read_header_of_short t (a ∷ b ∷ []) rest h = refl
  read_header_of_short t (a ∷ b ∷ c ∷ []) rest h = refl
  read_header_of_short t (a ∷ b ∷ c ∷ d ∷ more) rest h =
      bind_not_ok (k.get_schema (uint32 a b c d)) (λ schema. after_header k t schema (drop 3 rest))
        (λ schema. after_header_of_short t schema rest h)

  -- A payload of fewer than five bytes yields no value, whatever the slice's memory holds behind it.
  pub deserialize_payload_of_short :
      (t : SchemaType) (spare payload : Bytes)
      → length payload < 5
      → is_ok (deserialize_payload k t spare payload) ≡ false
  unfolding deserialize_payload
  deserialize_payload_of_short t spare [] h = refl
  deserialize_payload_of_short t spare (magic ∷ rest) h = elim (Bool-cases (not (magic == 0))) [
    | inl other ↦ rw other refl
    | inr zero_byte ↦ rw zero_byte (read_header_of_short t (rest ++ spare) rest (omega arith))
  ]
