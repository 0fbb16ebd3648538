-- ===== src/Conf/Parse/Fields.antt =====
-- The fields of a structure are parsed each on its own.
use nats_kafka.Base.{String, Bool, true, false, List, [], ◌∷◌, ◌≡◌, if◌then◌else◌, ◌⊎◌}
use nats_kafka.Base.Outcome.{Outcome, ok}
use nats_kafka.Conf.Values.{Entries, Slot, Struct, no_field, field}
use nats_kafka.Conf.Parse.{Conversions, parse_slot, found, get, is_nil}

pub record Field : Type 0 where
  pub name : String
  pub tag : String
  pub settable : Bool
  pub slot : Slot

pub fields_of : Struct → List Field
fields_of no_field = []
fields_of (field n t b s rest) =
    record { name = n; tag = t; settable = b; slot = s } ∷ fields_of rest

module _ (c : Conversions) (strict : Bool) (source : Entries) where
  -- One field, without regard to the others.
  parse_field : Field → Outcome (Unit {0}) × Slot
  parse_field f =
      found c strict (get c source f.name f.tag) f.slot
        (parse_slot c strict (get c source f.name f.tag) f.slot)

  Accepts : Field → Type 0
  Accepts f = if f.settable then (parse_field f).0 ≡ ok tt else (strict ≡ false)

  updated : Field → Field
  unfolding parse_field
  updated f = record f { slot = if f.settable then (parse_field f).1 else f.slot }

module _ (c : Conversions) (strict : Bool) (source : Entries) where
  -- The second field is the first as the file sets it: one that cannot be set, or that the file has no value
  -- for, is left as it is, and neither is met if `strict`; any other one is parsed without an error.
  pub IsParsed : Field → Field → Type 0
  IsParsed f f' =
      (f'.name ≡ f.name)
      × (f'.tag ≡ f.tag)
      × (f'.settable ≡ f.settable)
      × (((f.settable ≡ false) × (strict ≡ false) × (f'.slot ≡ f.slot))
          ⊎ (((f.settable ≡ true)
                × (is_nil (get c source f.name f.tag) ≡ true)
                × (strict ≡ false)
                × (f'.slot ≡ f.slot))
              ⊎ ((f.settable ≡ true)
                  × (is_nil (get c source f.name f.tag) ≡ false)
                  × (parse_slot c strict (get c source f.name f.tag) f.slot ≡ (ok tt, f'.slot)))))

  pub EachParsed : List Field → List Field → Type 0
  EachParsed [] [] = Unit {0}
  EachParsed (f ∷ fs) (f' ∷ fs') = IsParsed f f' × EachParsed fs fs'
  EachParsed _ _ = ⊥
