-- ===== src/Kafka/Key/Subject.antt =====
-- The subject header, described apart from the code.
use nats_kafka.Base.{
  All, ◌≢◌, bytes_eq, bytes_eq_refl, bytes_eq_sound, List, [], ◌∷◌, ◌++◌, false, some, ◌≡◌, refl,
  Bool-cases, inl, inr, ap, sym, ◌∙◌,
}
use nats_kafka.Kafka.{Bytes, Header, or_empty}
use nats_kafka.Kafka.Key.{subject_header_key, subject_of}

-- The first header of the name "subject" has the value `s`; one without a value counts as empty.
pub IsSubject : List Header → Bytes → Type 0
IsSubject hs s =
    (before : List Header) × (h : Header) × (behind : List Header) × (hs ≡ before ++ h ∷ behind)
    × All (λ x. x.key ≢ subject_header_key) before
    × (h.key ≡ subject_header_key)
    × (or_empty h.value ≡ s)

subject_of_found :
    (h : Header) (hs : List Header)
    → h.key ≡ subject_header_key
    → subject_of (h ∷ hs) ≡ some (or_empty h.value)
unfolding subject_of
subject_of_found h hs e =
    rw (ap (λ k. bytes_eq k subject_header_key) e ∙ bytes_eq_refl subject_header_key) refl

subject_of_other :
    (h : Header) (hs : List Header)
    → bytes_eq h.key subject_header_key ≡ false
    → subject_of (h ∷ hs) ≡ subject_of hs
unfolding subject_of
subject_of_other h hs e = rw (e, subject_of) refl

subject_of_first :
    (before : List Header) (h : Header) (behind : List Header)
    → All (λ x. x.key ≢ subject_header_key) before
    → h.key ≡ subject_header_key
    → subject_of (before ++ h ∷ behind) ≡ some (or_empty h.value)
subject_of_first [] h behind others e = subject_of_found h behind e
subject_of_first (x ∷ before) h behind others e =
    elim (Bool-cases (bytes_eq x.key subject_header_key)) [
      | inl same ↦ elim (others.0 (bytes_eq_sound x.key subject_header_key same)) [ ]
      | inr other ↦
          subject_of_other x (before ++ h ∷ behind) other
          ∙ subject_of_first before h behind others.1 e
    ]

pub subject_of_subject : (hs : List Header) (s : Bytes) → IsSubject hs s → subject_of hs ≡ some s
unfolding IsSubject
subject_of_subject hs s (before, h, behind, eq, others, e, v) =
    ap subject_of eq ∙ subject_of_first before h behind others e ∙ ap some v

pub subject_of-IsSubject : (hs : List Header) (s : Bytes) → subject_of hs ≡ some s → IsSubject hs s
unfolding IsSubject subject_of
subject_of-IsSubject [] s h = cc
subject_of-IsSubject (x ∷ hs) s h = elim (Bool-cases (bytes_eq x.key subject_header_key)) [
  | inl same ↦
      let key = bytes_eq_sound x.key subject_header_key same in
      let value : or_empty x.value ≡ s = (let found = sym (subject_of_found x hs key) ∙ h in cc) in
      ([], x, hs, refl, tt, key, value)
  | inr other ↦
      let (before, y, behind, eq, others, key, value) =
        subject_of-IsSubject hs s (sym (subject_of_other x hs other) ∙ h) in
      (
        x ∷ before,
        y,
        behind,
        ap (λ ys. x ∷ ys) eq,
        (
          λ e.
              let no =
                sym other
                ∙ ap (λ k. bytes_eq k subject_header_key) e
                ∙ bytes_eq_refl subject_header_key in
              cc,
          others,
        ),
        key,
        value,
      )
]
