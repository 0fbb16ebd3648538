-- ===== src/Conf/Values.antt =====
-- What the configuration parser of server/conf reads and writes: the values that the parser of the
-- nats-server package makes of a file, and a Go structure as reflection sees it.
use nats_kafka.Base.{ℕ, String, Bool, List}
use nats_kafka.Base.Int.{ℤ}
use nats_kafka.Stats.Float.{Float64}

-- An `interface{}`: nil, a value of one of the signed integer types, of one of the float types, and so
-- on; `other_value` is of any other type, such as a time. A map is the list of its entries, in the
-- order in which `range` visits them.
mutual
  pub data Value : Type 0 where
    nil_value other_value : Value
    bool_value : Bool → Value
    int_value : ℤ → Value
    float_value : Float64 → Value
    string_value : String → Value
    array_value : Items → Value
    map_value : Entries → Value

  pub data Items : Type 0 where
    no_item : Items
    item : Value → Items → Items

  pub data Entries : Type 0 where
    no_entry : Entries
    entry : String → Value → Entries → Entries

-- An element of a slice of a primitive type, and that type. `bits` is the width of an integer type.
pub data Primitive : Type 0 where
  string_primitive : String → Primitive
  int_primitive : ℤ → Primitive
  float_primitive : Float64 → Primitive

pub data PrimitiveType : Type 0 where
  string_type float_type : PrimitiveType
  int_type : (bits : ℕ) → PrimitiveType

-- A structure is the list of its fields, each with its name, its `conf` tag, whether it can be set, and
-- what it holds. A slice of structures comes with the zero value of its element type.
mutual
  pub data Slot : Type 0 where
    bool_slot : Bool → Slot
    int_slot : (bits : ℕ) → ℤ → Slot
    float_slot : Float64 → Slot
    string_slot : String → Slot
    -- a field of type `map[string]interface{}`, and one of another map type
    map_slot : Entries → Slot
    other_map_slot : Slot
    primitives_slot : PrimitiveType → List Primitive → Slot
    structs_slot : (prototype : Struct) → Structs → Slot
    other_slice_slot : Slot
    struct_slot : Struct → Slot
    other_slot : Slot

  pub data Struct : Type 0 where
    no_field : Struct
    field : (name tag : String) → (settable : Bool) → Slot → Struct → Struct

  pub data Structs : Type 0 where
    no_struct : Structs
    struct : Struct → Structs → Structs
