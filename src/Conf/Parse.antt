-- ===== src/Conf/Parse.antt =====
-- server/conf/parse.go: a parsed file is written into a structure, field by field. The structure is
-- changed in place, so what an error leaves is part of the result.
pub mod Names
pub mod Fields
pub mod Print
use nats_kafka.Base.{
  ℕ, String, Bool, true, false, List, [], ◌∷◌, ◌++◌, Option, none, some, not, str_eq, if◌then◌else◌,
  ◌==◌, ltb, ◌+◌, ◌-◌, ◌*◌, ◌%◌, ◌^◌,
}
use nats_kafka.Base.Int.{ℤ, pos, negsuc}
use nats_kafka.Base.Outcome.{Error, Outcome, ok, fail, panic, message, ◌>>=◌, ◌>>◌}
use nats_kafka.Stats.Float.{Float64}
use nats_kafka.Conf.Values.{
  Value, Items, Entries, Primitive, PrimitiveType, Slot, Struct, Structs, nil_value, other_value,
  bool_value, int_value, float_value, string_value, array_value, map_value, no_item, item, no_entry,
  entry, string_primitive, int_primitive, float_primitive, string_type, float_type, int_type,
  bool_slot, int_slot, float_slot, string_slot, map_slot, other_map_slot, primitives_slot,
  structs_slot, other_slice_slot, struct_slot, other_slot, no_field, field, no_struct, struct,
}

-- Go's conversions of texts and numbers: `strings.ToLower`, `strconv.Atoi` and `ParseFloat` (none for an
-- error), `string(n)` of an integer, and the two between integers and floats.
pub record Conversions : Type 0 where
  pub to_lower : String → String
  pub atoi : String → Option ℤ
  pub parse_float64 : String → Option Float64
  pub string_of_int : ℤ → String
  pub float_of_int : ℤ → Float64
  pub int_of_float : Float64 → ℤ

-- The integer with the bit pattern `p` in a type of `m` patterns, and the conversion of `n` to a type
-- of `bits` bits.
unfoldable pub of_pattern : ℕ → ℕ → ℤ
of_pattern m p = if ltb (2 * p) m then pos p else negsuc (m - p - 1)

unfoldable pub signed : ℕ → ℤ → ℤ
unfolding of_pattern
signed bits (pos k) = of_pattern (2 ^ bits) (k % 2 ^ bits)
signed bits (negsuc k) = of_pattern (2 ^ bits) (2 ^ bits - 1 - k % 2 ^ bits)

-- `m[k]`, nil if it is missing.
pub entry_at : String → Entries → Value
entry_at k no_entry = nil_value
entry_at k (entry j v m) = if str_eq j k then v else entry_at k m

pub has_entry : String → Entries → Bool
has_entry k no_entry = false
has_entry k (entry j v m) = if str_eq j k then true else has_entry k m

abbrev pub is_nil : Value → Bool
is_nil nil_value = true
is_nil _ = false

module _ (c : Conversions) where
  open c use {to_lower, atoi, parse_float64, string_of_int, float_of_int, int_of_float}

  pub parse_boolean : Value → Outcome Bool
  parse_boolean (bool_value b) = ok b
  parse_boolean (string_value s) = ok (str_eq (to_lower s) "true")
  parse_boolean _ = fail (message "error parsing %s option %v")

  pub parse_int : Value → Outcome ℤ
  parse_int (int_value n) = ok n
  parse_int (string_value s) = elim (atoi s) [
    | none ↦ fail (message "unable to parse integer %v for key %s")
    | some n ↦ ok n
  ]
  parse_int _ = fail (message "unable to parse integer %v for key %s")

  pub parse_float : Value → Outcome Float64
  parse_float (float_value x) = ok x
  parse_float (string_value s) = elim (parse_float64 s) [
    | none ↦ fail (message "unable to parse float %v for key %s")
    | some x ↦ ok x
  ]
  parse_float _ = fail (message "unable to parse float %v for key %s")

  pub parse_string : Value → Outcome String
  parse_string (string_value s) = ok s
  parse_string _ = fail (message "error parsing %s option %v")

  -- `ConvertibleTo` and `Convert`; the type of a nil interface is asked for, which panics.
  pub convert : PrimitiveType → Value → Outcome Primitive
  unfolding signed
  convert t nil_value = panic
  convert string_type (string_value s) = ok (string_primitive s)
  convert string_type (int_value n) = ok (string_primitive (string_of_int n))
  convert float_type (int_value n) = ok (float_primitive (float_of_int n))
  convert float_type (float_value x) = ok (float_primitive x)
  convert (int_type bits) (int_value n) = ok (int_primitive (signed bits n))
  convert (int_type bits) (float_value x) = ok (int_primitive (signed bits (int_of_float x)))
  convert _ _ = fail (message "error parsing %s option %v, contents are not convertable")

  pub convert_items : PrimitiveType → Items → Outcome (List Primitive)
  unfolding convert
  convert_items t no_item = ok []
  convert_items t (item v vs) = do x ← convert t v; xs ← convert_items t vs; ok (x ∷ xs)

  pub parse_primitive_array : PrimitiveType → Value → Outcome (List Primitive)
  unfolding convert convert_items
  parse_primitive_array t (array_value vs) = convert_items t vs
  parse_primitive_array t v = do x ← convert t v; ok (x ∷ [])

  -- The last loop of `get`, over the entries of the map.
  pub scan : String → Entries → Value
  scan key no_entry = nil_value
  scan key (entry k v m) = if str_eq (to_lower k) key then v else scan key m

  -- `get`; a nil map has no entries.
  pub get : Entries → String → String → Value
  unfolding entry_at has_entry scan
  get source key tag =
      if str_eq key ""
      then nil_value
      else if not (str_eq tag "")
      then entry_at tag source
      else if has_entry key source
      then entry_at key source
      else if has_entry (to_lower key) source
      then entry_at (to_lower key) source
      else scan (to_lower key) source

  -- A slot with what a parser made of a value, unless that failed.
  pub assigned {ℓ} : {A : Type ℓ} → Slot → (A → Slot) → Outcome A → Outcome (Unit {0}) × Slot
  assigned old set (ok a) = (ok tt, set a)
  assigned old set (fail e) = (fail e, old)
  assigned old set panic = (panic, old)

  abbrev pub unsupported : Bool → Slot → Outcome (Unit {0}) × Slot
  unsupported strict slot =
      if strict
      then (fail (message "unknown field type in configuration %s"), slot)
      else (ok tt, slot)

  -- The loop of `parseStructs` over an array; `parse` is `parseStruct` on a new zero value.
  pub parse_structs : (Entries → Outcome (Unit {0}) × Struct) → Items → Outcome Structs
  parse_structs parse no_item = ok no_struct
  parse_structs parse (item (map_value m) vs) = do
    (parse m).0
    ss ← parse_structs parse vs
    ok (struct (parse m).1 ss)
  parse_structs parse (item v vs) = fail (message "struct array contained invalid value")

  -- A field that is missing in the file is an error if `strict`, and is left as it is otherwise.
  pub found : Bool → Value → Slot → Outcome (Unit {0}) × Slot → Outcome (Unit {0}) × Slot
  found strict v slot parsed =
      if is_nil v
      then (if strict
          then (fail (message "missing field in configuration file %s"), slot)
          else (ok tt, slot))
      else parsed

  -- One turn of the loop over the fields: what was made of this field, and of those behind it.
  pub put_field :
      Bool
      → String
      → String
      → Bool
      → Slot
      → Struct
      → Outcome (Unit {0}) × Slot
      → Outcome (Unit {0}) × Struct
      → Outcome (Unit {0}) × Struct
  put_field strict name tag false slot rest s r =
      if strict
      then (
        fail (message "unsettable field in configuration struct %s"),
        field name tag false slot rest,
      )
      else (r.0, field name tag false slot r.1)
  put_field strict name tag true slot rest (ok u, slot') r = (r.0, field name tag true slot' r.1)
  put_field strict name tag true slot rest (fail e, slot') r =
      (fail e, field name tag true slot' rest)
  put_field strict name tag true slot rest (panic, slot') r =
      (panic, field name tag true slot' rest)

  unfoldable mutual
    unfolding parse_boolean parse_int parse_float parse_string parse_primitive_array signed assigned
        get parse_structs found put_field

    -- The loop of `parseStruct` over the fields.
    pub parse_struct : Bool → Entries → Struct → Outcome (Unit {0}) × Struct
    parse_struct strict source no_field = (ok tt, no_field)
    parse_struct strict source (field name tag settable slot rest) =
        put_field strict name tag settable slot rest
          (found strict (get source name tag) slot (parse_slot strict (get source name tag) slot))
          (parse_struct strict source rest)

    -- What is done with a value, which is not nil, for one field.
    pub parse_slot : Bool → Value → Slot → Outcome (Unit {0}) × Slot
    parse_slot strict v (bool_slot b) = assigned (bool_slot b) bool_slot (parse_boolean v)
    parse_slot strict v (int_slot bits n) =
        assigned (int_slot bits n) (λ k. int_slot bits (signed bits k)) (parse_int v)
    parse_slot strict v (float_slot x) = assigned (float_slot x) float_slot (parse_float v)
    parse_slot strict v (string_slot s) = assigned (string_slot s) string_slot (parse_string v)
    parse_slot strict (map_value m) (map_slot old) = (ok tt, map_slot m)
    parse_slot strict v (map_slot old) =
        (fail (message "map field %s doesn't have a matching map in the config file"), map_slot old)
    parse_slot strict (map_value m) other_map_slot =
        (fail (message "only map[string]interface{} fields are supported"), other_map_slot)
    parse_slot strict v other_map_slot = (
      fail (message "map field %s doesn't have a matching map in the config file"),
      other_map_slot,
    )
    parse_slot strict v (primitives_slot t xs) =
        assigned (primitives_slot t xs) (primitives_slot t) (parse_primitive_array t v)
    parse_slot strict (array_value vs) (structs_slot prototype ss) =
        assigned (structs_slot prototype ss) (structs_slot prototype)
          (parse_structs (λ m. parse_struct strict m prototype) vs)
    parse_slot strict (map_value m) (structs_slot prototype ss) =
        let (r, s) = parse_struct strict m prototype in
        assigned (structs_slot prototype ss) (λ u. structs_slot prototype (struct s no_struct)) r
    parse_slot strict v (structs_slot prototype ss) =
        (fail (message "error parsing %s option %v"), structs_slot prototype ss)
    parse_slot strict v other_slice_slot = unsupported strict other_slice_slot
    parse_slot strict (map_value m) (struct_slot s) =
        let (r, s') = parse_struct strict m s in (r, struct_slot s')
    parse_slot strict v (struct_slot s) = (
      fail (message "struct field %s doesn't have a matching map in the config file"),
      struct_slot s,
    )
    parse_slot strict v other_slot = unsupported strict other_slot
