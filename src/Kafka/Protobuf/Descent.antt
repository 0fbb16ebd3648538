-- ===== src/Kafka/Protobuf/Descent.antt =====
-- Which message type the indexes of a payload stand for.
use nats_kafka.Base.{
  ℕ, ◌≤◌, ltb, List, [], ◌∷◌, Option, none, some, ◌≡◌, refl, ◌∙◌, ◌↔◌, All, get_elem?, Option-cases,
  Bool-cases, inl, inr, false, arith,
}
use nats_kafka.Base.Int.{ℤ, pos, negsuc, ◌≤ℤ◌}
use nats_kafka.Base.Outcome.{ok, ok_inj}
use nats_kafka.Kafka.Protobuf.{Descriptors, descend}

module _ (k : Descriptors) where
  open k use {MessageType, nested_message_types}

  -- The indexes lead from the types to `d`: each is a place in the types nested in the one before.
  pub data LeadsTo : List MessageType → List ℤ → MessageType → Type 0 where
    there :
        {ts : List MessageType} {i : ℕ} {d : MessageType}
        → get_elem? ts i ≡ some d
        → LeadsTo ts (pos i ∷ []) d
    deeper :
        {ts : List MessageType} {i : ℕ} {t d : MessageType} {is : List ℤ}
        → get_elem? ts i ≡ some t
        → LeadsTo (nested_message_types t) is d
        → LeadsTo ts (pos i ∷ is) d

  ltb_not : (a b : ℕ) → b ≤ a → ltb a b ≡ false
  ltb_not a b h = ground arith

  descend_to :
      (len : ℕ) (ts : List MessageType) (is : List ℤ) (start : Option MessageType) (d : MessageType)
      → LeadsTo ts is d
      → All (λ i. i ≤ℤ pos len) is
      → descend k len ts start is ≡ ok (some d)
  unfolding descend
  descend_to len ts _ start d (there {i = i} e) h = rw (ltb_not len i (omega (arith, h.0)), e) refl
  descend_to len ts _ start d (deeper {i = i} {t = t} {is = is} e path) h =
      rw (ltb_not len i (omega (arith, h.0)), e)
        (descend_to len (nested_message_types t) is (some t) d path h.1)

  descend_step :
      (len : ℕ) (ts : List MessageType) (i : ℕ) (is : List ℤ) (start : Option MessageType)
      (d : MessageType)
      → descend k len ts start (pos i ∷ is) ≡ ok (some d)
      → (t : MessageType) × (get_elem? ts i ≡ some t)
        × (i ≤ len)
        × (descend k len (nested_message_types t) (some t) is ≡ ok (some d))
  unfolding descend
  descend_step len ts i is start d h = elim (Bool-cases (ltb len i)) [
    | inl beyond ↦ let no = rw beyond at h in cc
    | inr within ↦ elim (Option-cases (get_elem? ts i)) [
      | inl missing ↦ let no = rw (within, missing) at h in cc
      | inr (t, e) ↦ (t, e, ground arith, rw (within, e) at h)
    ]
  ]

  descend_from :
      (len : ℕ) (ts : List MessageType) (i : ℤ) (is : List ℤ) (start : Option MessageType)
      (d : MessageType)
      → descend k len ts start (i ∷ is) ≡ ok (some d)
      → LeadsTo ts (i ∷ is) d × All (λ j. j ≤ℤ pos len) (i ∷ is)
  unfolding descend
  descend_from len ts (negsuc i) is start d h = cc
  descend_from len ts (pos i) [] start d h =
      let (t, e, within, last) = descend_step len ts i [] start d h in
      let same : some t ≡ some d = ok_inj last in (there (e ∙ same), (omega arith, tt))
  descend_from len ts (pos i) (j ∷ is) start d h =
      let (t, e, within, rest) = descend_step len ts i (j ∷ is) start d h in
      let (path, others) = descend_from len (nested_message_types t) j is (some t) d rest in
      (deeper e path, (omega arith, others))

  -- The indexes of a payload give the type `d` exactly when they lead to it through the nested types and
  -- none of them exceeds the number of types at the top of the file.
  pub descend_iff :
      (len : ℕ) (ts : List MessageType) (i : ℤ) (is : List ℤ) (d : MessageType)
      → (descend k len ts none (i ∷ is) ≡ ok (some d))
        ↔ (LeadsTo ts (i ∷ is) d × All (λ j. j ≤ℤ pos len) (i ∷ is))
  descend_iff len ts i is d =
      (descend_from len ts i is none d, λ h. descend_to len ts (i ∷ is) none d h.0 h.1)
