-- ===== src/Kafka/Protobuf.antt =====
-- server/kafka/pb_schema_manager.go, pb_serializer.go and pb_deserializer.go: the descriptors of the
-- schemas, and the message indexes that stand before a protobuf message. The parser of schemas,
-- descriptors and dynamic messages are those of protoreflect, a parameter.
pub mod Cache
pub mod Descent
pub mod Indexes
pub mod RoundTrip
pub mod Transit
use nats_kafka.Base.{
  ℕ, zero, suc, ◌+◌, ◌^◌, ltb, String, Bool, List, [], ◌∷◌, ◌++◌, Option, none, some, bytes_eq,
  get_elem?, length, if◌then◌else◌,
}
use nats_kafka.Base.Int.{ℤ, pos, negsuc, eqb_ℤ, ltb_ℤ}
use nats_kafka.Base.Outcome.{
  Error, Outcome, ok, fail, panic, message, wrap, wrapped, or_panic, ◌>>=◌, ◌>>◌,
}
use nats_kafka.Kafka.{Bytes}
use nats_kafka.Kafka.Key.{split}
use nats_kafka.Kafka.Payload.{Schema}
use nats_kafka.Kafka.Varint.{put_varint, read_varint}

-- `desc.FileDescriptor` and `desc.MessageDescriptor`, `protoparse` on a file of the given text, and
-- `dynamic.Message`.
pub record Descriptors : Type 1 where
  pub File : Type 0
  pub MessageType : Type 0
  pub message_types : File → List MessageType
  pub nested_message_types : MessageType → List MessageType
  pub name : MessageType → Bytes
  pub fully_qualified_name : MessageType → Bytes
  pub parse_files : String → Outcome (List File)
  pub Message : Type 0
  pub unmarshal_json : MessageType → Bytes → Outcome Message
  pub marshal : Message → Outcome Bytes
  pub unmarshal : MessageType → Bytes → Outcome Message
  pub marshal_json : Message → Outcome Bytes

-- What the file system answers for the temporary file of one call: its name, and the two calls on it.
pub record TempFile : Type 0 where
  pub create_temp : Outcome String
  pub write_string : Outcome (Unit {0})
  pub close : Outcome (Unit {0})

module _ (k : Descriptors) where
  open k use {
    File, MessageType, Message, message_types, nested_message_types, name, fully_qualified_name,
    parse_files, unmarshal_json, marshal, unmarshal, marshal_json,
  }

  -- `protobufSchemaManager`, and the temporary files that were not removed.
  pub record Manager : Type 0 where
    pub mappings : List (ℤ × File)
    pub left_behind : List String

  -- The entry of a schema identifier.
  unfoldable pub mapping_of : ℤ → List (ℤ × File) → Option File
  mapping_of id [] = none
  mapping_of id ((j, fd) ∷ ms) = if eqb_ℤ j id then some fd else mapping_of id ms

  -- What was done, with the files that it leaves.
  pub write_temp_file : TempFile → Outcome (Unit {0}) × List String
  write_temp_file t = elim t.create_temp [
    | fail e ↦ (fail e, [])
    | panic ↦ (panic, [])
    | ok path ↦ elim (t.write_string >> t.close) [
      | fail e ↦ (fail e, path ∷ [])
      | panic ↦ (panic, path ∷ [])
      | ok u ↦ (ok tt, [])
    ]
  ]

  pub parse_schema : Schema → Outcome File
  parse_schema schema = do fds ← parse_files schema.text; or_panic (get_elem? fds 0)

  -- A step that can fail, with the manager that it leaves.
  unfoldable pub and_then :
      {A B : Type 0}
      → Outcome A × Manager
      → (A → Manager → Outcome B × Manager)
      → Outcome B × Manager
  and_then (ok a, m) f = f a m
  and_then (fail e, m) f = (fail e, m)
  and_then (panic, m) f = (panic, m)

  -- `Set` of what was parsed, if it was.
  pub stored : ℤ → Manager → Outcome File → Outcome File × Manager
  stored id m (ok fd) = (ok fd, record m { mappings = (id, fd) ∷ m.mappings })
  stored id m (fail e) = (fail e, m)
  stored id m panic = (panic, m)

  unfoldable pub get_file_descriptor : Manager → TempFile → Schema → Outcome File × Manager
  unfolding mapping_of write_temp_file parse_schema stored
  get_file_descriptor m t schema = elim (mapping_of schema.id m.mappings) [
    | some fd ↦ (ok fd, m)
    | none ↦
        let (done, left) = write_temp_file t in
        stored schema.id (record m { left_behind = left ++ m.left_behind })
          (done >> parse_schema schema)
  ]

  unfoldable pub get_message_descriptor :
      Manager → TempFile → Schema → Outcome MessageType × Manager
  unfolding get_file_descriptor and_then
  get_message_descriptor m t schema =
      and_then (get_file_descriptor m t schema)
        (λ fd m'. (or_panic (get_elem? (message_types fd) 0), m'))

  -- The place of the first type of that name, counted from `i`.
  unfoldable pub index_of : Bytes → ℕ → List MessageType → Option ℕ
  index_of part i [] = none
  index_of part i (t ∷ ts) = if bytes_eq (name t) part then some i else index_of part (suc i) ts

  -- The outer loop: the bytes of the indexes, and how many they are. `indexBuf` has eight bytes.
  unfoldable pub message_index : List MessageType → List Bytes → Outcome (Bytes × ℕ)
  unfolding index_of
  message_index ts [] = ok ([], 0)
  message_index ts (part ∷ parts) =
      let rest = message_index ts parts in
      elim (index_of part 0 ts) [
        | none ↦ rest
        | some i ↦ do here ← put_varint 8 (pos i); (bs, count) ← rest; ok (here ++ bs, suc count)
      ]

  unfoldable pub encode_indexes : File → Bytes → Outcome (Bytes × Bytes)
  unfolding message_index
  encode_indexes fd full = do
    (indexes, count) ← message_index (message_types fd) (split full)
    counted ← put_varint 8 (pos count)
    ok (counted, indexes)

  unfoldable pub build_message_indexes :
      Manager → TempFile → Schema → Bytes → Outcome (Bytes × Bytes) × Manager
  unfolding encode_indexes and_then
  build_message_indexes m t schema full =
      and_then (get_file_descriptor m t schema) (λ fd m'. (encode_indexes fd full, m'))

  unfoldable pub append_message : Message → Bytes × Bytes → Manager → Outcome Bytes × Manager
  append_message msg indexes m = (marshal msg >>= λ proto. ok (indexes.0 ++ indexes.1 ++ proto), m)

  -- `Serialize` from `dynamic.NewMessage` on.
  unfoldable pub serialize_message :
      TempFile → Schema → Bytes → MessageType → Manager → Outcome Bytes × Manager
  unfolding build_message_indexes append_message and_then
  serialize_message t schema payload d m =
      and_then (unmarshal_json d payload, m)
        (λ msg m'.
          and_then (build_message_indexes m' t schema (fully_qualified_name d))
            (λ indexes m''. append_message msg indexes m''))

  -- `Serialize`; it asks for the descriptor twice, with `t` and `t'` the files that this can take.
  unfoldable pub serialize :
      Manager → TempFile → TempFile → Schema → Bytes → Outcome Bytes × Manager
  unfolding serialize_message and_then
  serialize m t t' schema payload =
      and_then (get_message_descriptor m t schema)
        (λ d m'. serialize_message t' schema payload d m')

  -- `make([]int64, n)` panics for a negative length and for one beyond the address space.
  abbrev pub make_limit : ℕ
  make_limit = 2 ^ 45

  unfoldable pub read_indexes : ℕ → Bytes → Outcome (List ℤ × Bytes)
  unfolding read_varint
  read_indexes zero bs = ok ([], bs)
  read_indexes (suc n) bs = do
    (i, rest) ← wrapped "unable to read messageTypeID: %w" (read_varint bs)
    (is, left) ← read_indexes n rest
    ok (i ∷ is, left)

  -- `Read` of what is left; at the end it returns `io.EOF`.
  unfoldable pub read_rest : Bytes → Outcome Bytes
  read_rest [] = fail (wrap "unable to read remaining payload: %w" (message "EOF"))
  read_rest (b ∷ bs) = ok (b ∷ bs)

  unfoldable pub read_message_types : ℤ → Bytes → Outcome (List ℤ × Bytes)
  unfolding read_indexes
  read_message_types (negsuc n) bs = panic
  read_message_types (pos zero) bs = ok (pos 0 ∷ [], bs)
  read_message_types (pos (suc n)) bs =
      if ltb make_limit (suc n) then panic else read_indexes (suc n) bs

  -- The indexes and the message of a payload.
  pub decode_protobuf_structures : Bytes → Outcome (List ℤ × Bytes)
  unfolding read_message_types read_rest
  decode_protobuf_structures payload = do
    (count, rest) ← wrapped "unable to read arrayLength: %w" (read_varint payload)
    (indexes, left) ← read_message_types count rest
    clean ← read_rest left
    ok (indexes, clean)

  -- The loop of `getMessageDescriptorFromMessage`; `len` stays the number of types of the file.
  unfoldable pub descend :
      ℕ → List MessageType → Option MessageType → List ℤ → Outcome (Option MessageType)
  descend len ts d [] = ok d
  descend len ts d (negsuc i ∷ is) = panic
  descend len ts d (pos i ∷ is) =
      if ltb len i
      then fail (
          message
            "failed to decode message type: message index is larger than message types array length")
      else elim (get_elem? ts i) [
        | none ↦ panic
        | some t ↦ descend len (nested_message_types t) (some t) is
      ]

  pub get_message_descriptor_from_message :
      Manager → TempFile → Schema → List ℤ → Outcome (Option MessageType) × Manager
  unfolding descend and_then
  get_message_descriptor_from_message m t schema indexes =
      and_then (get_file_descriptor m t schema)
        (λ fd m'. (descend (length (message_types fd)) (message_types fd) none indexes, m'))

  -- What `Deserialize` does with the type; a nil one is not a message type, and `NewMessage` panics.
  pub to_json : Bytes → Option MessageType → Outcome Bytes
  to_json clean d = do t ← or_panic d; msg ← unmarshal t clean; marshal_json msg

  pub deserialize : Manager → TempFile → Schema → Bytes → Outcome Bytes × Manager
  unfolding decode_protobuf_structures get_message_descriptor_from_message to_json and_then
  deserialize m t schema payload =
      and_then (decode_protobuf_structures payload, m)
        (λ w m1.
          and_then (get_message_descriptor_from_message m1 t schema w.0)
            (λ d m2. (to_json w.1 d, m2)))
