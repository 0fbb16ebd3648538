-- ===== src/Examples/Protobuf.antt =====
-- A schema file with one message type, whose messages are bytes in every form.
use nats_kafka.Base.{[], ◌∷◌, some, none, ◌≡◌, ◌↔◌, All}
use nats_kafka.Base.Int.{pos, ◌≤ℤ◌}
use nats_kafka.Base.Outcome.{Outcome, ok}
use nats_kafka.Kafka.{Bytes}
use nats_kafka.Kafka.Key.{dot}
use nats_kafka.Kafka.Protobuf.{Descriptors, TempFile, Manager, descend}
use nats_kafka.Kafka.Protobuf.Transit.{over_protobuf}
use nats_kafka.Kafka.Payload.{Codecs, SchemaType, SchemaSettings}
use nats_kafka.Kafka.Protobuf.Descent.{LeadsTo, descend_iff}
use nats_kafka.Examples.{codecs}

-- A file is the list of the names of its types, and a type is its name; "a.m" is the one there is.
abbrev descriptors : Descriptors
descriptors = record {
  File = Unit {0};
  MessageType = Unit {0};
  message_types = λ fd. tt ∷ [];
  nested_message_types = λ d. [];
  name = λ d. 109 ∷ [];
  fully_qualified_name = λ d. 97 ∷ dot ∷ 109 ∷ [];
  parse_files = λ s. ok (tt ∷ []);
  Message = Bytes;
  unmarshal_json = λ d x. ok x;
  marshal = λ m. ok m;
  unmarshal = λ d x. ok x;
  marshal_json = λ m. ok m;
}

abbrev manager : Manager descriptors
manager = record { mappings = (pos 513, tt) ∷ []; left_behind = [] }

abbrev temp_file : TempFile
temp_file = record { create_temp = ok "/tmp/513"; write_string = ok tt; close = ok tt }

abbrev fresh : Manager descriptors
fresh = record { mappings = []; left_behind = [] }

-- The producer has met the schema; the consumer has not.
abbrev linked : Codecs
linked = over_protobuf descriptors manager fresh temp_file temp_file temp_file codecs

abbrev settings : SchemaSettings
settings = record {
  subject_name = "orders";
  schema_version = pos 2;
  schema_type = SchemaType.protobuf;
}

descend_iff_example :
    (descend descriptors 1 (tt ∷ []) none (pos 0 ∷ []) ≡ ok (some tt))
    ↔ (LeadsTo descriptors (tt ∷ []) (pos 0 ∷ []) tt × All (λ j. j ≤ℤ pos 1) (pos 0 ∷ []))
descend_iff_example = descend_iff descriptors 1 (tt ∷ []) (pos 0) [] tt
