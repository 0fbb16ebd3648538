-- ===== src/Kafka/Key.antt =====
-- `refineKeyWithSubjectHeader` of server/kafka/producer.go.
pub mod Tokens
pub mod Subject
pub mod Laws
use nats_kafka.Base.{
  ℕ, ◌==◌, ltb, List, [], ◌∷◌, ◌++◌, Bool, true, not, ◌||◌, Option, none, some, length, take,
  bytes_eq, if◌then◌else◌,
}
use nats_kafka.Kafka.{Bytes, Header, or_empty}

-- `subjectHeaderKey`: "subject"
abbrev pub subject_header_key : Bytes
subject_header_key = 115 ∷ 117 ∷ 98 ∷ 106 ∷ 101 ∷ 99 ∷ 116 ∷ []

-- '.' and '>'
abbrev pub dot : ℕ
dot = 46

abbrev pub wildcard : ℕ
wildcard = 62

-- The last byte, none of an empty string.
unfoldable pub last : Bytes → Option ℕ
last [] = none
last (x ∷ []) = some x
last (x ∷ y ∷ ys) = last (y ∷ ys)

-- `len(key) == 0 || key[len(key)-1] != '>'`
unfoldable pub is_unrefined : Bytes → Bool
unfolding last
is_unrefined key = elim (last key) [ none ↦ true | some x ↦ not (x == wildcard) ]

-- The first header named "subject".
pub subject_of : List Header → Option Bytes
unfolding bytes_eq
subject_of [] = none
subject_of (h ∷ hs) =
    if bytes_eq h.key subject_header_key then some (or_empty h.value) else subject_of hs

-- `strings.Split(s, ".")`: the tokens between the dots, one more than these are.
unfoldable pub prepend : ℕ → List Bytes → List Bytes
prepend x [] = (x ∷ []) ∷ []
prepend x (t ∷ ts) = (x ∷ t) ∷ ts

unfoldable pub split : Bytes → List Bytes
unfolding prepend
split [] = [] ∷ []
split (x ∷ xs) = if x == dot then [] ∷ split xs else prepend x (split xs)

-- `strings.Join(tokens, ".")`
pub join : List Bytes → Bytes
join [] = []
join (t ∷ []) = t
join (t ∷ u ∷ ts) = t ++ dot ∷ join (u ∷ ts)

unfoldable pub refine_key : Bytes → List Header → Bytes
unfolding is_unrefined subject_of split join
refine_key key headers = if is_unrefined key then key else elim (subject_of headers) [
  | none ↦ key
  | some subject ↦
      if ltb (length (split subject)) 5
      then key
      else join (take 5 (split subject)) ++ dot ∷ wildcard ∷ []
]
