-- ===== src/Connector/Writer.antt =====
-- How a message reaches Kafka: `writer`, `getHash` and `dest` of server/core/connector.go, `NewProducer`
-- and `Write` of server/kafka/producer.go and `erroredProducer`. sarama, the registry, regexp and
-- text/template are parameters, and so are Go's conversions of text to bytes.
pub mod Laws
use Prim.Native.String.{◌++◌ as append}
use nats_kafka.Base.{
  ℕ, ◌%◌, String, List, [], ◌∷◌, Bool, not, ◌&&◌, Option, none, some, get_elem?, take, str_eq,
  if◌then◌else◌, ◌⊎◌, inl, inr,
}
use nats_kafka.Base.Int.{ℤ}
use nats_kafka.Base.Outcome.{Error, Outcome, ok, fail, panic, wrap, ◌>>=◌, ◌>>◌}
use nats_kafka.Base.Dict.{lookup, insert}
use nats_kafka.Conf.{ConnectorConfig}
use nats_kafka.Kafka.{Bytes, Header, Message}
use nats_kafka.Kafka.Key.{refine_key}
use nats_kafka.Kafka.Payload.{SchemaType, SchemaSettings, Codecs, serialize_payload}
use nats_kafka.Connector.{Connector, Producer}

-- `sarama.ProducerMessage`
pub record ProducerMessage : Type 0 where
  pub topic : String
  pub key : Bytes
  pub value : Bytes
  pub headers : List Header

-- What the packages answer. `bytes_of` is the conversion `[]byte(s)`, `find_submatch` is
-- `regexp.Compile` with `FindStringSubmatch`, `dest` is the connector's template executed on the
-- message at hand, and `arranged` is the order in which Go hands out the entries of a map. These are the
-- answers while one message is handled, for which at most one producer is made; the next message meets others.
pub record Gear : Type 1 where
  pub codecs : Codecs
  pub bytes_of : String → Bytes
  pub decimal : ℕ → Bytes
  pub to_upper : String → String
  pub sum256 : Bytes → Bytes
  pub find_submatch : String → String → Outcome (List Bytes)
  pub arranged : List Header → List Header
  pub new_sync_producer : ConnectorConfig → ℤ → Error ⊎ ℕ
  pub send_message : ℕ → ProducerMessage → Outcome (Unit {0})

abbrev pub digits : List String
digits =
    "0" ∷ "1" ∷ "2" ∷ "3" ∷ "4" ∷ "5" ∷ "6" ∷ "7" ∷ "8" ∷ "9" ∷ "A" ∷ "B" ∷ "C" ∷ "D" ∷ "E" ∷ "F"
    ∷ "G" ∷ "H" ∷ "I" ∷ "J" ∷ "K" ∷ "L" ∷ "M" ∷ "N" ∷ "O" ∷ "P" ∷ "Q" ∷ "R" ∷ "S" ∷ "T" ∷ "U" ∷ "V"
    ∷ "W" ∷ "X" ∷ "Y" ∷ "Z" ∷ "a" ∷ "b" ∷ "c" ∷ "d" ∷ "e" ∷ "f" ∷ "g" ∷ "h" ∷ "i" ∷ "j" ∷ "k" ∷ "l"
    ∷ "m" ∷ "n" ∷ "o" ∷ "p" ∷ "q" ∷ "r" ∷ "s" ∷ "t" ∷ "u" ∷ "v" ∷ "w" ∷ "x" ∷ "y" ∷ "z" ∷ []

-- `digits[int(b%62)]`, which is always there.
abbrev pub digit : ℕ → String
digit b = elim (get_elem? digits (b % 62)) [ none ↦ "" | some d ↦ d ]

abbrev pub spell : Bytes → String
spell [] = ""
spell (b ∷ bs) = append (digit b) (spell bs)

-- The first six bytes of the digest, as digits.
unfoldable pub get_hash : Gear → String → String
get_hash g name = spell (take 6 (g.sum256 (g.bytes_of name)))

-- Whether `NewProducer` turns the schema registry on.
abbrev pub schema_registry_on : ConnectorConfig → Bool
schema_registry_on c = not (str_eq c.schema_registry_url "") && not (str_eq c.subject_name "")

pub schema_settings : Gear → ConnectorConfig → SchemaSettings
schema_settings g c = record {
  subject_name = c.subject_name;
  schema_version = c.schema_version;
  schema_type =
      if str_eq (g.to_upper c.schema_type) "JSON"
      then SchemaType.json
      else if str_eq (g.to_upper c.schema_type) "PROTOBUF"
      then SchemaType.protobuf
      else SchemaType.avro;
}

-- `NewProducer`, or the errored producer that stands in for it.
unfoldable pub new_writer : Gear → ConnectorConfig → ℤ → String → Producer
new_writer g c timeout topic = elim (g.new_sync_producer c timeout) [
  | inl e ↦ Producer.errored (wrap "failed to create producer: %w" e)
  | inr k ↦ Producer.sarama k topic
]

-- The writer for a topic; one that was not there is stored.
unfoldable pub writer : Gear → ℤ → String → Connector → Producer × Connector
unfolding get_hash new_writer
writer g timeout topic c = elim (lookup (get_hash g topic) c.writers) [
  | some w ↦ (w, c)
  | none ↦
      let w = new_writer g c.config timeout topic in
      (w, record c { writers = insert (get_hash g topic) w c.writers })
]

unfoldable pub encode : Gear → ConnectorConfig → Bytes → Outcome Bytes
unfolding schema_settings
encode g c value =
    if schema_registry_on c
    then serialize_payload g.codecs (schema_settings g c) value
    else ok value

unfoldable pub outgoing : String → Message → Bytes → ProducerMessage
outgoing topic m value = record {
  topic = topic;
  key = refine_key m.key m.headers;
  value = value;
  headers = m.headers;
}

-- `Write`; its value is what was handed to sarama. The producer's settings are those of the
-- connector's configuration, which does not change.
unfoldable pub write : Gear → ConnectorConfig → Producer → Message → Outcome ProducerMessage
unfolding encode outgoing
write g c (Producer.errored e) m = fail e
write g c (Producer.sarama k topic) m = do
  value ← encode g c m.value
  let sent = outgoing topic m value
  g.send_message k sent
  ok sent
