-- ===== src/Kafka/Partitioner.antt =====
-- server/kafka/partitioner.go: the balancer that counts the bytes of every partition. The concurrent
-- map of counters is the list of its entries, the oldest first; the order in which `IterBuffered`
-- hands them out is a parameter. A partition number is an int32 that is not negative, below 2 ^ 31, and
-- a counter a uint64.
pub mod Least
pub mod Keyed
use nats_kafka.Base.{
  ℕ, zero, suc, ◌+◌, ◌-◌, ◌%◌, ◌^◌, ltb, List, [], ◌∷◌, ◌++◌, Bool, not, ◌==◌, ◌||◌, Option, none,
  some, length, bytes_eq, if◌then◌else◌,
}
use nats_kafka.Base.Outcome.{Outcome, ok, fail, panic, wrapped, or_panic, ◌>>=◌}
use nats_kafka.Kafka.{Bytes}
use nats_kafka.Kafka.Words.{pack_int32, unpack_int32}

abbrev pub Counters : Type 0
Counters = List (Bytes × ℕ)

-- `byteCounters.Get`, `Set` and `Remove`.
pub get : Bytes → Counters → Option ℕ
get k [] = none
get k (e ∷ s) = if bytes_eq e.0 k then some e.1 else get k s

pub put : Bytes → ℕ → Counters → Counters
put k n [] = (k, n) ∷ []
put k n (e ∷ s) = if bytes_eq e.0 k then (k, n) ∷ s else e ∷ put k n s

pub remove : Bytes → Counters → Counters
remove k [] = []
remove k (e ∷ s) = if bytes_eq e.0 k then s else e ∷ remove k s

-- The first loop, for the `count` numbers `from + count - 1`, ..., `from`, downwards.
pub shrink : ℕ → ℕ → Counters → Outcome Counters
unfolding remove
shrink from zero s = ok s
shrink from (suc count) s = do
  index ← wrapped "failed in removing count for partition %d: %w" (pack_int32 (from + count))
  shrink from count (remove index s)

-- The second loop, for the `count` numbers from `from` on.
pub extend : ℕ → ℕ → Counters → Outcome Counters
unfolding put
extend from zero s = ok s
extend from (suc count) s = do
  index ← wrapped "failed in adding count for partition %d: %w" (pack_int32 from)
  extend (suc from) count (put index 0 s)

-- One turn of `findPartitionWithMinBytes`, on the partition and its bytes found so far.
pub less : Bytes × ℕ → Bytes × ℕ → Bytes × ℕ
less best entry = if best.1 == 0 || ltb entry.1 best.1 then entry else best

pub least_from : Bytes × ℕ → Counters → Bytes × ℕ
unfolding less
least_from best [] = best
least_from best (e ∷ s) = least_from (less best e) s

pub find_partition_with_min_bytes : Counters → Bytes
unfolding least_from
find_partition_with_min_bytes s = (least_from ([], 0) s).0

-- `Partition`, of a message with `size` bytes of key and value.
pub partition : (Counters → Counters) → ℕ → ℕ → Counters → Outcome (ℕ × Counters)
unfolding shrink extend find_partition_with_min_bytes get put
partition order size num s = do
  s ← shrink num (length s - num) s
  s ← extend (length s) (num - length s) s
  let min_index = find_partition_with_min_bytes (order s)
  min_bytes ← or_panic (get min_index s)
  let s = put min_index ((min_bytes + size) % 2 ^ 64) s
  index ← unpack_int32 min_index
  ok (index, s)
