-- ===== src/Kafka/Words.antt =====
-- 32-bit words in big-endian order: server/kafka/packer_utils.go and the schema identifier of
-- producer.go and consumer.go. A word is its bit pattern, below 2 ^ 32.
use nats_kafka.Base.{ℕ, ◌+◌, ◌-◌, ◌*◌, ◌/◌, ◌%◌, ◌^◌, ◌<◌, [], ◌∷◌, ◌++◌, ◌≡◌, ap, arith}
use nats_kafka.Base.Int.{ℤ, pos, negsuc}
use nats_kafka.Base.Outcome.{Outcome, ok, fail, message}
use nats_kafka.Kafka.{Bytes}

-- The conversion `uint32(n)` of an int.
abbrev pub to_uint32 : ℤ → ℕ
to_uint32 (pos n) = n % 2 ^ 32
to_uint32 (negsuc n) = 2 ^ 32 - 1 - n % 2 ^ 32

-- `binary.BigEndian.PutUint32` into four bytes.
unfoldable pub put_uint32 : ℕ → Bytes
put_uint32 w = w / 2 ^ 24 % 256 ∷ w / 2 ^ 16 % 256 ∷ w / 2 ^ 8 % 256 ∷ w % 256 ∷ []

-- `binary.BigEndian.Uint32` of four bytes.
unfoldable pub uint32 : ℕ → ℕ → ℕ → ℕ → ℕ
uint32 a b c d = a * 2 ^ 24 + b * 2 ^ 16 + c * 2 ^ 8 + d

-- `packInt32InString`; writing to a buffer does not fail.
unfoldable pub pack_int32 : ℕ → Outcome Bytes
unfolding put_uint32
pack_int32 w = ok (put_uint32 w)

-- `unpackInt32FromString`: `binary.Read` wants four bytes and leaves the rest.
unfoldable pub unpack_int32 : Bytes → Outcome ℕ
unfolding uint32
unpack_int32 [] = fail (message "EOF")
unpack_int32 (a ∷ []) = fail (message "unexpected EOF")
unpack_int32 (a ∷ b ∷ []) = fail (message "unexpected EOF")
unpack_int32 (a ∷ b ∷ c ∷ []) = fail (message "unexpected EOF")
unpack_int32 (a ∷ b ∷ c ∷ d ∷ rest) = ok (uint32 a b c d)

-- What is packed is read back, whatever follows it.
pub unpack_int32-put_uint32 :
    (w : ℕ) (rest : Bytes) → w < 2 ^ 32 → unpack_int32 (put_uint32 w ++ rest) ≡ ok w
unfolding unpack_int32 put_uint32 uint32
unpack_int32-put_uint32 w rest h = ap ok (omega arith)

pub to_uint32-lt : (n : ℤ) → to_uint32 n < 2 ^ 32
to_uint32-lt (pos n) = omega arith
to_uint32-lt (negsuc n) = omega arith

pub uint32_bytes :
    (w : ℕ)
    → w < 2 ^ 32
    → uint32 (w / 2 ^ 24 % 256) (w / 2 ^ 16 % 256) (w / 2 ^ 8 % 256) (w % 256) ≡ w
unfolding uint32
uint32_bytes w h = omega arith
