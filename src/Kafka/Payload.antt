-- ===== src/Kafka/Payload.antt =====
-- The schema-registry framing of server/kafka: `serializePayload` of producer.go, `deserializePayload`
-- of consumer.go and their Avro and JSON branches. The registry, the Avro codec and the JSON packages
-- are parameters, and so are `pbSerializer` and `pbDeserializer`, interfaces of pb_serializer.go and
-- pb_deserializer.go.
pub mod RoundTrip
use nats_kafka.Base.{
  ℕ, String, List, [], ◌∷◌, ◌++◌, Bool, not, ◌==◌, if◌then◌else◌, str_eq, drop, Option, none, some,
}
use nats_kafka.Base.Int.{ℤ, pos, eqb_ℤ}
use nats_kafka.Base.Outcome.{Outcome, ok, fail, panic, message, ◌>>=◌, ◌>>◌, guard, wrapped}
use nats_kafka.Kafka.{Bytes}
use nats_kafka.Kafka.Words.{to_uint32, put_uint32, uint32}

-- `srclient.Schema`: its identifier and its text.
pub record Schema : Type 0 where
  pub id : ℤ
  pub text : String

-- `srclient.SchemaType`
pub data SchemaType : Type 0 where
  avro json protobuf : SchemaType

-- The packages: the registry client, goavro, encoding/json with jsonschema, and the interfaces
-- `pbSerializer` and `pbDeserializer`.
pub record Codecs : Type 1 where
  pub get_schema : ℕ → Outcome Schema
  pub get_schema_by_version : String → ℤ → Outcome Schema
  pub get_latest_schema : String → Outcome Schema
  pub Native : Type 0
  pub native_from_textual : Schema → Bytes → Outcome Native
  pub binary_from_native : Schema → Native → Outcome Bytes
  pub native_from_binary : Schema → Bytes → Outcome Native
  pub textual_from_native : Schema → Native → Outcome Bytes
  pub JsonSchema : Type 0
  pub JsonValue : Type 0
  pub compile_string : String → Outcome JsonSchema
  pub unmarshal : Bytes → Outcome JsonValue
  pub validate : JsonSchema → JsonValue → Outcome (Unit {0})
  pub pb_serialize : Schema → Bytes → Outcome Bytes
  pub pb_deserialize : Schema → Bytes → Outcome Bytes

-- The fields of `saramaProducer` that the schema registry needs.
pub record SchemaSettings : Type 0 where
  pub subject_name : String
  pub schema_version : ℤ
  pub schema_type : SchemaType

module _ (k : Codecs) where
  open k use {
    get_schema, get_schema_by_version, get_latest_schema, native_from_textual, binary_from_native,
    native_from_binary, textual_from_native, compile_string, unmarshal, validate, pb_serialize,
    pb_deserialize,
  }

  -- A version of 0 stands for the latest.
  unfoldable pub find_schema : SchemaSettings → Outcome Schema
  find_schema p =
      if not (eqb_ℤ p.schema_version (pos 0))
      then get_schema_by_version p.subject_name p.schema_version
      else get_latest_schema p.subject_name

  pub serialize_avro : Schema → Bytes → Outcome Bytes
  serialize_avro schema payload = do
    native ← wrapped "unable to serialize json: %w" (native_from_textual schema payload)
    wrapped "failed to convert to avro: %w" (binary_from_native schema native)

  unfoldable pub encode_value : SchemaType → Schema → Bytes → Outcome Bytes
  unfolding serialize_avro
  encode_value SchemaType.avro schema payload = serialize_avro schema payload
  encode_value SchemaType.json schema payload = ok payload
  encode_value SchemaType.protobuf schema payload = pb_serialize schema payload

  unfoldable pub serialize_payload : SchemaSettings → Bytes → Outcome Bytes
  unfolding find_schema encode_value
  serialize_payload p payload = do
    schema ← find_schema p
    value ← encode_value p.schema_type schema payload
    ok (0 ∷ put_uint32 (to_uint32 schema.id) ++ value)

  pub deserialize_avro : Schema → Bytes → Outcome Bytes
  deserialize_avro schema clean = do
    native ← wrapped "unable to deserailize avro: %w" (native_from_binary schema clean)
    wrapped "failed to convert to json: %w" (textual_from_native schema native)

  pub validate_json_schema : Schema → Bytes → Outcome Bytes
  validate_json_schema schema clean = do
    compiled ← wrapped "unable to parse json schema: %w" (compile_string schema.text)
    parsed ← wrapped "unable to parse json message: %w" (unmarshal clean)
    wrapped "json message validation failed: %w" (validate compiled parsed)
    ok clean

  unfoldable pub decode_value : SchemaType → Schema → Bytes → Outcome Bytes
  unfolding deserialize_avro validate_json_schema
  decode_value SchemaType.avro schema clean = deserialize_avro schema clean
  decode_value SchemaType.json schema clean = validate_json_schema schema clean
  decode_value SchemaType.protobuf schema clean = pb_deserialize schema clean

  -- `payload[5:]` of a payload that goes on as `rest` behind its first four bytes.
  pub after_header : SchemaType → Schema → Bytes → Outcome Bytes
  unfolding decode_value
  after_header t schema [] = panic
  after_header t schema (d ∷ clean) = decode_value t schema clean

  -- `payload[1:5]` reads up to the slice's capacity; `payload[5:]` goes up to its length. Both are
  -- given without the first byte, the memory up to the capacity first.
  pub read_header : SchemaType → Bytes → Bytes → Outcome Bytes
  unfolding after_header
  read_header t [] rest = panic
  read_header t (a ∷ []) rest = panic
  read_header t (a ∷ b ∷ []) rest = panic
  read_header t (a ∷ b ∷ c ∷ []) rest = panic
  read_header t (a ∷ b ∷ c ∷ d ∷ more) rest = do
    schema ← get_schema (uint32 a b c d)
    after_header t schema (drop 3 rest)

  -- `spare` is what the memory holds between the payload's length and the slice's capacity. An index
  -- out of range is a panic.
  pub deserialize_payload : SchemaType → Bytes → Bytes → Outcome Bytes
  unfolding read_header
  deserialize_payload t spare [] = panic
  deserialize_payload t spare (magic ∷ rest) =
      if not (magic == 0)
      then fail (message "failed to deserialize payload: magic byte is not 0")
      else read_header t (rest ++ spare) rest
