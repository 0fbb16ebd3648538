-- ===== src/Conf/Parse/Names.antt =====
-- Under which names `get` finds the value of a field.
use nats_kafka.Base.{
  String, true, false, ◌≡◌, refl, sym, subst, str_eq, eq_iff, Bool-cases, inl, inr, ◌⊎◌,
}
use nats_kafka.Conf.Values.{Value, Entries, no_entry, entry}
use nats_kafka.Conf.Parse.{Conversions, entry_at, has_entry, scan, get}

-- There is an entry whose key satisfies `P`, with value `v`.
unfoldable pub HasEntry : (String → Type 0) → Value → Entries → Type 0
HasEntry P v no_entry = ⊥
HasEntry P v (entry k w m) = (P k × (w ≡ v)) ⊎ HasEntry P v m

HasEntry-entry_at :
    (P : String → Type 0) (k : String) (m : Entries)
    → P k
    → has_entry k m ≡ true
    → HasEntry P (entry_at k m) m
unfolding HasEntry entry_at has_entry
HasEntry-entry_at P k no_entry h e = cc
HasEntry-entry_at P k (entry j v m) h e = elim (Bool-cases (str_eq j k)) [
  | inl same ↦
      let first : entry_at k (entry j v m) ≡ v = rw same refl in
      subst (λ x. HasEntry P x (entry j v m)) (sym first)
        (inl (subst P (sym ((eq_iff j k).0 same)) h, refl))
  | inr other ↦
      let later : entry_at k (entry j v m) ≡ entry_at k m = rw other refl in
      subst (λ x. HasEntry P x (entry j v m)) (sym later)
        (inr (HasEntry-entry_at P k m h (rw other at e)))
]

module _ (c : Conversions) where
  open c use {to_lower}

  HasEntry-scan :
      (key : String) (v : Value) (m : Entries)
      → HasEntry (λ k. to_lower k ≡ key) v m
      → HasEntry (λ k. to_lower k ≡ key) (scan c key m) m
  unfolding HasEntry scan
  HasEntry-scan key v no_entry h = elim h [ ]
  HasEntry-scan key v (entry k w m) h = elim (Bool-cases (str_eq (to_lower k) key)) [
    | inl same ↦
        let first : scan c key (entry k w m) ≡ w = rw same refl in
        subst (λ x. HasEntry (λ j. to_lower j ≡ key) x (entry k w m)) (sym first)
          (inl ((eq_iff (to_lower k) key).0 same, refl))
    | inr other ↦
        let later : scan c key (entry k w m) ≡ scan c key m = rw other refl in
        subst (λ x. HasEntry (λ j. to_lower j ≡ key) x (entry k w m)) (sym later)
          (inr (
            HasEntry-scan key v m (elim h [
              | inl here ↦
                  let same : str_eq (to_lower k) key ≡ true = (eq_iff (to_lower k) key).1 here.0 in
                  cc
              | inr there ↦ there
            ])))
  ]

  -- A field without a tag is found under every spelling: if the file has an entry whose key is the
  -- field's name up to letter case, `get` gives the value of such an entry.
  pub get_insensitive :
      (source : Entries) (key : String) (v : Value)
      → ((s : String) → to_lower (to_lower s) ≡ to_lower s)
      → str_eq key "" ≡ false
      → HasEntry (λ k. to_lower k ≡ to_lower key) v source
      → HasEntry (λ k. to_lower k ≡ to_lower key) (get c source key "") source
  unfolding get
  get_insensitive source key v lower named there =
      let P : String → Type 0 = λ k. to_lower k ≡ to_lower key in
      elim (Bool-cases (has_entry key source)) [
        | inl exact ↦ rw (named, exact) (HasEntry-entry_at P key source refl exact)
        | inr no_exact ↦ elim (Bool-cases (has_entry (to_lower key) source)) [
          | inl low ↦
              rw (named, no_exact, low) (HasEntry-entry_at P (to_lower key) source (lower key) low)
          | inr no_low ↦ rw (named, no_exact, no_low) (HasEntry-scan (to_lower key) v source there)
        ]
      ]
