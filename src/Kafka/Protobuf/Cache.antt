-- ===== src/Kafka/Protobuf/Cache.antt =====
-- A descriptor that was found is kept.
use nats_kafka.Base.{◌∷◌, some, ◌≡◌, refl, sym, ap, ◌∙◌, Option-cases, inl, inr, true, arith}
use nats_kafka.Base.Int.{ℤ, pos, negsuc, eqb_ℤ}
use nats_kafka.Base.Outcome.{Outcome, ok, fail, panic, ok_inj}
use nats_kafka.Kafka.Payload.{Schema}
use nats_kafka.Kafka.Protobuf.{
  Descriptors, TempFile, Manager, mapping_of, get_file_descriptor, stored, and_then,
}

eqb_ℤ_refl : (n : ℤ) → eqb_ℤ n n ≡ true
eqb_ℤ_refl (pos n) = ground arith
eqb_ℤ_refl (negsuc n) = ground arith

module _ (k : Descriptors) where
  open k use {File}

  -- A step that succeeded, taken apart.
  pub and_then-eq-ok :
      {A B : Type 0} (r : Outcome A × Manager k) (f : A → Manager k → Outcome B × Manager k) {b : B}
      {m' : Manager k}
      → and_then k r f ≡ (ok b, m')
      → (a : A) × (m : Manager k) × (r ≡ (ok a, m)) × (f a m ≡ (ok b, m'))
  unfolding and_then
  and_then-eq-ok (ok a, m) f h = (a, m, refl, h)
  and_then-eq-ok (fail e, m) f h = let no = ap (λ p. p.0) h in cc
  and_then-eq-ok (panic, m) f h = let no = ap (λ p. p.0) h in cc

  get_file_descriptor_of_known :
      (m : Manager k) (t : TempFile) (s : Schema) (fd : File)
      → mapping_of k s.id m.mappings ≡ some fd
      → get_file_descriptor k m t s ≡ (ok fd, m)
  unfolding get_file_descriptor
  get_file_descriptor_of_known m t s fd h = rw (h, get_file_descriptor) refl

  mapping_of-stored :
      (id : ℤ) (m m' : Manager k) (r : Outcome File) (fd : File)
      → stored k id m r ≡ (ok fd, m')
      → mapping_of k id m'.mappings ≡ some fd
  unfolding stored mapping_of
  mapping_of-stored id m m' (ok new) fd h =
      let file : ok new ≡ ok fd = ap (λ p. p.0) h in
      let first : mapping_of k id ((id, new) ∷ m.mappings) ≡ some new = rw (eqb_ℤ_refl id) refl in
      ap (λ p. mapping_of k id p.1.mappings) (sym h) ∙ first ∙ ap some (ok_inj file)
  mapping_of-stored id m m' (fail e) fd h = let no = ap (λ p. p.0) h in cc
  mapping_of-stored id m m' panic fd h = let no = ap (λ p. p.0) h in cc

  mapping_of-get_file_descriptor :
      (m m' : Manager k) (t : TempFile) (s : Schema) (fd : File)
      → get_file_descriptor k m t s ≡ (ok fd, m')
      → mapping_of k s.id m'.mappings ≡ some fd
  unfolding get_file_descriptor
  mapping_of-get_file_descriptor m m' t s fd h =
      elim (Option-cases (mapping_of k s.id m.mappings)) [
        | inr (known, e) ↦
            let same = sym (get_file_descriptor_of_known m t s known e) ∙ h in
            let file : ok known ≡ ok fd = ap (λ p. p.0) same in
            ap (λ p. mapping_of k s.id p.1.mappings) (sym same) ∙ e ∙ ap some (ok_inj file)
        | inl e ↦ mapping_of-stored s.id _ m' _ fd (rw (e, get_file_descriptor) at h)
      ]

  -- Once a schema's descriptor was found, every later call for its identifier gives that descriptor, does
  -- not parse again and changes nothing, whatever the text of the schema and the file system are then.
  pub get_file_descriptor_again :
      (m m' : Manager k) (t t' : TempFile) (s s' : Schema) (fd : File)
      → get_file_descriptor k m t s ≡ (ok fd, m')
      → s'.id ≡ s.id
      → get_file_descriptor k m' t' s' ≡ (ok fd, m')
  get_file_descriptor_again m m' t t' s s' fd h same =
      get_file_descriptor_of_known m' t' s' fd
        (rw same (mapping_of-get_file_descriptor m m' t s fd h))
