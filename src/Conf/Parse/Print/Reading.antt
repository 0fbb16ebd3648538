-- ===== src/Conf/Parse/Print/Reading.antt =====
-- What the parser makes of a file that spells out a structure.
use nats_kafka.Base.{
  String, Bool, true, false, List, [], ◌∷◌, ◌≡◌, refl, sym, ap, ◌∙◌, str_eq, eq_iff, arith,
}
use nats_kafka.Base.Outcome.{Outcome, ok}
use nats_kafka.Conf.Values.{
  Value, Entries, Primitive, PrimitiveType, Slot, Struct, Structs, entry, string_primitive,
  int_primitive, float_primitive, string_type, float_type, int_type, bool_slot, int_slot,
  float_slot, string_slot, map_slot, other_map_slot, primitives_slot, structs_slot,
  other_slice_slot, struct_slot, other_slot, no_field, field, no_struct, struct,
}
use nats_kafka.Conf.Parse.{
  Conversions, entry_at, has_entry, is_nil, get, convert, convert_items, parse_boolean, parse_int,
  parse_float, parse_string, parse_primitive_array, parse_structs, parse_struct, parse_slot,
  assigned, found, put_field,
}
use nats_kafka.Conf.Parse.Print.{
  AreOf, Fits, SlotFits, EachFits, entries_of, value_of, value_of_primitive, items_of, struct_items,
  is_free,
}

-- Every field is found in the entries with its value.
IsSpelt : Entries → Struct → Type 0
IsSpelt source no_field = Unit {0}
IsSpelt source (field n t b s rest) =
    (has_entry n source ≡ true) × (entry_at n source ≡ value_of s) × IsSpelt source rest

is_free_parts :
    (n m t : String) (b : Bool) (x : Slot) (rest : Struct)
    → is_free n (field m t b x rest) ≡ true
    → (str_eq n m ≡ false) × (is_free n rest ≡ true)
unfolding is_free
is_free_parts n m t b x rest h = ground arith

IsSpelt-behind :
    (n : String) (v : Value) (source : Entries) (s : Struct)
    → is_free n s ≡ true
    → IsSpelt source s
    → IsSpelt (entry n v source) s
unfolding IsSpelt has_entry entry_at
IsSpelt-behind n v source no_field free h = tt
IsSpelt-behind n v source (field m t b s rest) free h =
    let (other, later) = is_free_parts n m t b s rest free in
    (rw other (h.0), rw other (h.1), IsSpelt-behind n v source rest later h.2)

IsSpelt-entries_of : (s s' : Struct) → Fits s s' → IsSpelt (entries_of s') s'
unfolding Fits IsSpelt entries_of has_entry entry_at
IsSpelt-entries_of no_field no_field h = tt
IsSpelt-entries_of no_field (field n' t' b' x' rest') h = elim h [ ]
IsSpelt-entries_of (field n t b x rest) no_field h = elim h [ ]
IsSpelt-entries_of (field n t b x rest) (field n' t' b' x' rest') h =
    let same : str_eq n' n' ≡ true = (eq_iff n' n').1 refl in
    (
      rw same refl,
      rw same refl,
      IsSpelt-behind n' (value_of x') (entries_of rest') rest' (h.0.2)
          (IsSpelt-entries_of rest rest' h.3),
    )

value_of_is_there : (s : Slot) → is_nil (value_of s) ≡ false
unfolding value_of
value_of_is_there (bool_slot b) = refl
value_of_is_there (int_slot bits n) = refl
value_of_is_there (float_slot x) = refl
value_of_is_there (string_slot s) = refl
value_of_is_there (map_slot m) = refl
value_of_is_there other_map_slot = refl
value_of_is_there (primitives_slot t xs) = refl
value_of_is_there (structs_slot p ss) = refl
value_of_is_there other_slice_slot = refl
value_of_is_there (struct_slot s) = refl
value_of_is_there other_slot = refl

module _ (c : Conversions) where
  get_spelt :
      (source : Entries) (n : String)
      → str_eq n "" ≡ false
      → has_entry n source ≡ true
      → get c source n "" ≡ entry_at n source
  unfolding get
  get_spelt source n named there = rw (named, there) refl

  found_there :
      (strict : Bool) (v : Value) (slot : Slot) (p : Outcome (Unit {0}) × Slot)
      → is_nil v ≡ false
      → found c strict v slot p ≡ p
  unfolding found
  found_there strict v slot p h = rw (h, found) refl

  convert_items_of :
      (t : PrimitiveType) (xs : List Primitive)
      → AreOf t xs
      → convert_items c t (items_of xs) ≡ ok xs
  unfolding convert_items items_of value_of_primitive AreOf convert
  convert_items_of t [] h = refl
  convert_items_of string_type (string_primitive s ∷ xs) h =
      rw (convert_items_of string_type xs h) refl
  convert_items_of string_type (int_primitive n ∷ xs) h = elim h [ ]
  convert_items_of string_type (float_primitive x ∷ xs) h = elim h [ ]
  convert_items_of float_type (string_primitive s ∷ xs) h = elim h [ ]
  convert_items_of float_type (int_primitive n ∷ xs) h = elim h [ ]
  convert_items_of float_type (float_primitive x ∷ xs) h =
      rw (convert_items_of float_type xs h) refl
  convert_items_of (int_type bits) (string_primitive s ∷ xs) h = elim h [ ]
  convert_items_of (int_type bits) (int_primitive n ∷ xs) h =
      rw (h.0, convert_items_of (int_type bits) xs h.1) refl
  convert_items_of (int_type bits) (float_primitive x ∷ xs) h = elim h [ ]

  mutual
    unfolding Fits IsSpelt entries_of parse_struct assigned put_field parse_primitive_array
        parse_structs parse_boolean parse_int parse_float parse_string

    parse_struct_of_spelt :
        (strict : Bool) (source : Entries) (s s' : Struct)
        → Fits s s'
        → IsSpelt source s'
        → parse_struct c strict source s ≡ (ok tt, s')
    parse_struct_of_spelt strict source no_field no_field h spelt = refl
    parse_struct_of_spelt strict source no_field (field n' t' b' x' rest') h spelt = elim h [ ]
    parse_struct_of_spelt strict source (field n t b x rest) no_field h spelt = elim h [ ]
    parse_struct_of_spelt strict source (field n t b x rest) (field n' t' b' x' rest') h spelt =
        let slot = parse_slot_of_value strict x x' h.2 in
        let others = parse_struct_of_spelt strict source rest rest' h.3 spelt.2 in
        let value : get c source n "" ≡ value_of x' =
          ap (λ m. get c source m "") (sym h.0.0) ∙ get_spelt source n' h.0.1 spelt.0 ∙ spelt.1 in
        let there =
          found_there strict (value_of x') x (parse_slot c strict (value_of x') x)
            (value_of_is_there x') in
        rw (h.0.0, h.1.0, h.1.1, h.1.2, h.1.3, value, there, slot, others) refl

    parse_slot_of_value :
        (strict : Bool) (x x' : Slot)
        → SlotFits x x'
        → parse_slot c strict (value_of x') x ≡ (ok tt, x')
    parse_slot_of_value strict (bool_slot b) (bool_slot b') h = refl
    parse_slot_of_value strict (int_slot bits n) (int_slot bits' n') h =
        rw (h.1) (ap (λ w. (ok tt, int_slot w n')) (sym h.0))
    parse_slot_of_value strict (float_slot y) (float_slot y') h = refl
    parse_slot_of_value strict (string_slot y) (string_slot y') h = refl
    parse_slot_of_value strict (map_slot m) (map_slot m') h = refl
    parse_slot_of_value strict (primitives_slot t xs) (primitives_slot t' ys) h =
        rw (convert_items_of t ys h.1) (ap (λ w. (ok tt, primitives_slot w ys)) (sym h.0))
    parse_slot_of_value strict (structs_slot p ss) (structs_slot p' ss') h =
        rw (parse_structs_of_items strict p ss' h.1)
          (ap (λ w. (ok tt, structs_slot w ss')) (sym h.0))
    parse_slot_of_value strict (struct_slot s) (struct_slot s') h =
        rw (parse_struct_of_spelt strict (entries_of s') s s' h (IsSpelt-entries_of s s' h)) refl
    parse_slot_of_value strict x x' h = elim h [ ]

    parse_structs_of_items :
        (strict : Bool) (p : Struct) (ss : Structs)
        → EachFits p ss
        → parse_structs c (λ m. parse_struct c strict m p) (struct_items ss) ≡ ok ss
    parse_structs_of_items strict p no_struct h = refl
    parse_structs_of_items strict p (struct s ss) h =
        let first =
          parse_struct_of_spelt strict (entries_of s) p s h.0 (IsSpelt-entries_of p s h.0) in
        let rest = parse_structs_of_items strict p ss h.1 in rw (first, rest) refl

  -- A file that spells out a structure loads as that structure, strictly or not, over any structure of the
  -- same type: fields that can be set, of types that a file can give, with distinct names and no tags, and
  -- integers that fit.
  pub parse_struct-entries_of :
      (strict : Bool) (s s' : Struct)
      → Fits s s'
      → parse_struct c strict (entries_of s') s ≡ (ok tt, s')
  parse_struct-entries_of strict s s' h =
      parse_struct_of_spelt strict (entries_of s') s s' h (IsSpelt-entries_of s s' h)
