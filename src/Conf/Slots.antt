-- ===== src/Conf/Slots.antt =====
-- What the fields of a structure hold, as reflection sees it, and slices of strings and of structures.
use nats_kafka.Base.{ℕ, zero, suc, String, Bool, false, List, [], ◌∷◌}
use nats_kafka.Base.Int.{ℤ, pos}
use nats_kafka.Conf.Values.{
  Primitive, string_primitive, Slot, bool_slot, int_slot, string_slot, primitives_slot,
  structs_slot, struct_slot, other_slot, Struct, no_field, field, Structs, no_struct, struct,
}

-- What a slot holds. A slot of another type, which a structure made here does not have, reads as the
-- zero value.
unfoldable pub slot_at : ℕ → Struct → Slot
slot_at i no_field = other_slot
slot_at zero (field n t b s rest) = s
slot_at (suc i) (field n t b s rest) = slot_at i rest

abbrev pub bool_of : Slot → Bool
bool_of (bool_slot b) = b
bool_of _ = false

abbrev pub int_of : Slot → ℤ
int_of (int_slot bits n) = n
int_of _ = pos 0

abbrev pub string_of : Slot → String
string_of (string_slot s) = s
string_of _ = ""

abbrev pub struct_of : Slot → Struct
struct_of (struct_slot s) = s
struct_of _ = no_field

-- A slice of strings.
unfoldable pub primitives : List String → List Primitive
primitives [] = []
primitives (s ∷ ss) = string_primitive s ∷ primitives ss

unfoldable pub texts : List Primitive → List String
texts [] = []
texts (string_primitive s ∷ ps) = s ∷ texts ps
texts (_ ∷ ps) = "" ∷ texts ps

unfoldable pub strings_of : Slot → List String
unfolding texts
strings_of (primitives_slot t ps) = texts ps
strings_of _ = []

-- A slice of structures.
unfoldable pub structs : {A : Type 0} → (A → Struct) → List A → Structs
structs f [] = no_struct
structs f (x ∷ xs) = struct (f x) (structs f xs)

unfoldable pub elements : {A : Type 0} → (Struct → A) → Structs → List A
elements g no_struct = []
elements g (struct s ss) = g s ∷ elements g ss

unfoldable pub structs_of : {A : Type 0} → (Struct → A) → Slot → List A
unfolding elements
structs_of g (structs_slot p ss) = elements g ss
structs_of g _ = []
