-- ===== src/Conf/Parse/Print.antt =====
-- A file that spells out a structure, and the structures that a file can spell out.
pub mod Reading
use nats_kafka.Base.{
  ℕ, String, Bool, true, false, List, [], ◌∷◌, ◌≡◌, refl, sym, ap, ◌∙◌, str_eq, eq_iff,
  if◌then◌else◌, arith,
}
use nats_kafka.Base.Int.{ℤ}
use nats_kafka.Base.Outcome.{Outcome, ok}
use nats_kafka.Conf.Values.{
  Value, Items, Entries, Primitive, PrimitiveType, Slot, Struct, Structs, other_value, bool_value,
  int_value, float_value, string_value, array_value, map_value, no_item, item, no_entry, entry,
  string_primitive, int_primitive, float_primitive, string_type, float_type, int_type, bool_slot,
  int_slot, float_slot, string_slot, map_slot, other_map_slot, primitives_slot, structs_slot,
  other_slice_slot, struct_slot, other_slot, no_field, field, no_struct, struct,
}
use nats_kafka.Conf.Parse.{
  Conversions, signed, entry_at, has_entry, is_nil, get, convert, convert_items, parse_boolean,
  parse_int, parse_float, parse_string, parse_primitive_array, parse_structs, parse_struct,
  parse_slot, assigned, found, put_field,
}

pub value_of_primitive : Primitive → Value
value_of_primitive (string_primitive s) = string_value s
value_of_primitive (int_primitive n) = int_value n
value_of_primitive (float_primitive x) = float_value x

pub items_of : List Primitive → Items
unfolding value_of_primitive
items_of [] = no_item
items_of (x ∷ xs) = item (value_of_primitive x) (items_of xs)

-- The file: an entry for every field, under its name.
unfoldable mutual
  unfolding items_of

  pub entries_of : Struct → Entries
  entries_of no_field = no_entry
  entries_of (field n t b s rest) = entry n (value_of s) (entries_of rest)

  pub value_of : Slot → Value
  value_of (bool_slot b) = bool_value b
  value_of (int_slot bits n) = int_value n
  value_of (float_slot x) = float_value x
  value_of (string_slot s) = string_value s
  value_of (map_slot m) = map_value m
  value_of (primitives_slot t xs) = array_value (items_of xs)
  value_of (structs_slot p ss) = array_value (struct_items ss)
  value_of (struct_slot s) = map_value (entries_of s)
  value_of _ = other_value

  pub struct_items : Structs → Items
  struct_items no_struct = no_item
  struct_items (struct s ss) = item (map_value (entries_of s)) (struct_items ss)

-- No field of the structure has that name.
unfoldable pub is_free : String → Struct → Bool
is_free n no_field = true
is_free n (field m t b s rest) = let others = is_free n rest in if str_eq n m then false else others

-- The elements are of the type, and integers fit.
unfoldable pub AreOf : PrimitiveType → List Primitive → Type 0
AreOf t [] = Unit {0}
AreOf string_type (string_primitive s ∷ xs) = AreOf string_type xs
AreOf float_type (float_primitive x ∷ xs) = AreOf float_type xs
AreOf (int_type bits) (int_primitive n ∷ xs) = (signed bits n ≡ n) × AreOf (int_type bits) xs
AreOf t _ = ⊥

-- The second structure is of the type of the first, all of whose fields can be set and have no tag:
-- it has the same fields, with distinct names, of types that a file can give, and its integers fit.
unfoldable mutual
  unfolding is_free AreOf

  pub Fits : Struct → Struct → Type 0
  Fits no_field no_field = Unit {0}
  Fits (field n t b s rest) (field n' t' b' s' rest') =
      ((n' ≡ n) × (str_eq n' "" ≡ false) × (is_free n' rest' ≡ true))
      × ((t ≡ "") × (t' ≡ "") × (b ≡ true) × (b' ≡ true))
      × SlotFits s s'
      × Fits rest rest'
  Fits _ _ = ⊥

  pub SlotFits : Slot → Slot → Type 0
  SlotFits (bool_slot b) (bool_slot b') = Unit {0}
  SlotFits (int_slot bits n) (int_slot bits' n') = (bits' ≡ bits) × (signed bits n' ≡ n')
  SlotFits (float_slot x) (float_slot y) = Unit {0}
  SlotFits (string_slot s) (string_slot s') = Unit {0}
  SlotFits (map_slot m) (map_slot m') = Unit {0}
  SlotFits (primitives_slot t xs) (primitives_slot t' ys) = (t' ≡ t) × AreOf t ys
  SlotFits (structs_slot p ss) (structs_slot p' ss') = (p' ≡ p) × EachFits p ss'
  SlotFits (struct_slot s) (struct_slot s') = Fits s s'
  SlotFits _ _ = ⊥

  pub EachFits : Struct → Structs → Type 0
  EachFits p no_struct = Unit {0}
  EachFits p (struct s ss) = Fits p s × EachFits p ss

-- A field that fits, in front of fields that do.
pub Fits-field :
    (n : String) (s s' : Slot) (rest rest' : Struct)
    → str_eq n "" ≡ false
    → is_free n rest' ≡ true
    → SlotFits s s'
    → Fits rest rest'
    → Fits (field n "" true s rest) (field n "" true s' rest')
unfolding Fits
Fits-field n s s' rest rest' named free h others =
    ((refl, named, free), (refl, refl, refl, refl), h, others)

pub Fits-end : Fits no_field no_field
unfolding Fits
Fits-end = tt

pub Fits_bool : (b b' : Bool) → SlotFits (bool_slot b) (bool_slot b')
unfolding SlotFits
Fits_bool b b' = tt

pub Fits_string : (s s' : String) → SlotFits (string_slot s) (string_slot s')
unfolding SlotFits
Fits_string s s' = tt

pub Fits_int :
    (bits : ℕ) (n n' : ℤ) → signed bits n' ≡ n' → SlotFits (int_slot bits n) (int_slot bits n')
unfolding SlotFits
Fits_int bits n n' h = (refl, h)

pub Fits_primitives :
    (t : PrimitiveType) (xs ys : List Primitive)
    → AreOf t ys
    → SlotFits (primitives_slot t xs) (primitives_slot t ys)
unfolding SlotFits
Fits_primitives t xs ys h = (refl, h)

pub Fits_structs :
    (p : Struct) (ss ss' : Structs)
    → EachFits p ss'
    → SlotFits (structs_slot p ss) (structs_slot p ss')
unfolding SlotFits
Fits_structs p ss ss' h = (refl, h)

pub Fits-struct : (s s' : Struct) → Fits s s' → SlotFits (struct_slot s) (struct_slot s')
unfolding SlotFits
Fits-struct s s' h = h
