-- ===== src/Connector/Listen/Headers.antt =====
-- What becomes of the headers of a Kafka message.
use nats_kafka.Base.{
  List, [], ◌∷◌, ◌++◌, true, false, none, some, bytes_eq, bytes_eq_refl, bytes_eq_sound,
  if◌then◌else◌, ◌≡◌, refl, sym, ap, ◌∙◌, subst, Bool-cases, inl, inr, append_assoc, append-nil,
  Option-cases,
}
use nats_kafka.Kafka.{Bytes, Header}
use nats_kafka.Connector.Listen.{NatsHeader, add_header, collect_headers, to_nats_headers}

-- `hdr.Values(k)`
pub values_of : Bytes → NatsHeader → List Bytes
values_of k [] = []
values_of k ((j, vs) ∷ m) = if bytes_eq j k then vs else values_of k m

-- The values under a key of a Kafka message, in their order.
pub record_values : Bytes → List Header → List Bytes
record_values k [] = []
record_values k (h ∷ hs) = elim h.value [
  | none ↦ record_values k hs
  | some v ↦ if bytes_eq h.key k then v ∷ record_values k hs else record_values k hs
]

bytes_eq_trans : (j k : Bytes) → bytes_eq j k ≡ true → (l : Bytes) → bytes_eq j l ≡ bytes_eq k l
bytes_eq_trans j k same l = ap (λ x. bytes_eq x l) (bytes_eq_sound j k same)

values_of-add_header_same :
    (k v : Bytes) (m : NatsHeader) → values_of k (add_header k v m) ≡ values_of k m ++ (v ∷ [])
unfolding values_of add_header
values_of-add_header_same k v [] = rw (bytes_eq_refl k) refl
values_of-add_header_same k v ((j, vs) ∷ m) = elim (Bool-cases (bytes_eq j k)) [
  | inl same ↦ rw (same, same) refl
  | inr other ↦ rw (other, other) (values_of-add_header_same k v m)
]

values_of-add_header_other :
    (k j v : Bytes) (m : NatsHeader)
    → bytes_eq j k ≡ false
    → values_of k (add_header j v m) ≡ values_of k m
unfolding values_of add_header
values_of-add_header_other k j v [] h = rw h refl
values_of-add_header_other k j v ((i, vs) ∷ m) h = elim (Bool-cases (bytes_eq i j)) [
  | inl same ↦ rw (same, bytes_eq_trans i j same k, h) refl
  | inr other ↦
      rw other (ap (λ r. if bytes_eq i k then vs else r) (values_of-add_header_other k j v m h))
]

values_of-collect_headers :
    (k : Bytes) (hs : List Header) (m : NatsHeader)
    → values_of k (collect_headers hs m) ≡ values_of k m ++ record_values k hs
unfolding collect_headers record_values
values_of-collect_headers k [] m = sym (append-nil (values_of k m))
values_of-collect_headers k (h ∷ hs) m = elim (Option-cases h.value) [
  | inl missing ↦ rw missing (values_of-collect_headers k hs m)
  | inr (v, found) ↦
      let rest = values_of-collect_headers k hs (add_header h.key v m) in
      elim (Bool-cases (bytes_eq h.key k)) [
        | inl same ↦
            rw (found, same)
              (rest
                ∙ ap (λ x. x ++ record_values k hs)
                    (subst (λ i. values_of k (add_header i v m) ≡ values_of k m ++ (v ∷ []))
                      (sym (bytes_eq_sound h.key k same)) (values_of-add_header_same k v m))
                ∙ append_assoc (values_of k m) (v ∷ []) (record_values k hs))
        | inr other ↦
            rw (found, other)
              (rest
                ∙ ap (λ x. x ++ record_values k hs) (values_of-add_header_other k h.key v m other))
      ]
]

-- The NATS message has, under every key, just the values that the Kafka message has under it, in the
-- same order, except those that are nil.
pub values_of-to_nats_headers :
    (k : Bytes) (hs : List Header) → values_of k (to_nats_headers hs) ≡ record_values k hs
unfolding to_nats_headers values_of
values_of-to_nats_headers k hs = values_of-collect_headers k hs []
