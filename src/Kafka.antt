-- ===== src/Kafka.antt =====
-- server/kafka: what is written to Kafka. A `[]byte` is the list of its bytes, and so is a Go string
-- that holds binary data.
pub mod Words
pub mod Varint
pub mod Key
pub mod Payload
pub mod Protobuf
pub mod Partitioner
pub mod Handshake
pub mod Client
use nats_kafka.Base.{ℕ, String, List, [], Option, none, some}
use nats_kafka.Base.Int.{ℤ}

abbrev pub Bytes : Type 0
Bytes = List ℕ

-- `sarama.RecordHeader`; a value can be a nil slice, `none`.
pub record Header : Type 0 where
  pub key : Bytes
  pub value : Option Bytes

-- A slice read as text: nil is empty.
abbrev pub or_empty : Option Bytes → Bytes
or_empty none = []
or_empty (some v) = v

-- `kafka.Message`
pub record Message : Type 0 where
  pub topic : String
  pub partition : ℤ
  pub offset : ℤ
  pub key : Bytes
  pub value : Bytes
  pub headers : List Header
