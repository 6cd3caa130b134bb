-- ===== src/Vault/Fields.antt =====
-- The checks of `writeConfigs` on the fields of a secret.
use mathlib.Core.Path.{subst}
use vpnproxy.Base.{
  true, false, List, [], ◌∷◌, Option, none, some, ◌≡◌, ◌⊎◌, inl, inr, refl, sym, Bytes, All, Memᴰ,
  Bool-cases,
}
use vpnproxy.Vault.{
  Field, Value, text, other_value, is_region_name, Refusal, no_fields, invalid_name, not_text,
  check_fields, names_of,
}

module _ (fields : List Field) where
  -- A field that may be written.
  abbrev pub IsValid : Field → Type 0
  IsValid f = (is_region_name f.name ≡ true) × (s : Bytes) × (f.value ≡ text s)

  abbrev pub Explains : Refusal → Type 0
  Explains no_fields = fields ≡ []
  Explains (invalid_name n) =
      (f : Field) × Memᴰ f fields × (f.name ≡ n) × (is_region_name n ≡ false)
  Explains (not_text n) = (f : Field) × Memᴰ f fields × (f.name ≡ n) × (f.value ≡ other_value)

  Value-cases : (v : Value) → ((s : Bytes) × (v ≡ text s)) ⊎ (v ≡ other_value)
  Value-cases (text s) = inl (s, refl)
  Value-cases other_value = inr refl

  abbrev pub Checked : List Field → Option Refusal → Type 0
  Checked fs none = All IsValid fs
  Checked fs (some r) = ((f : Field) → Memᴰ f fs → Memᴰ f fields) → Explains r

  Checked-cons :
      (f : Field) (fs : List Field) (o : Option Refusal)
      → IsValid f
      → Checked fs o
      → Checked (f ∷ fs) o
  Checked-cons f fs none ok_ all = (ok_, all)
  Checked-cons f fs (some r) ok_ why = λ within. why (λ g m. within g (Memᴰ.tail m))

  check_fields-valid :
      (f : Field) (fs : List Field) (s : Bytes)
      → is_region_name f.name ≡ true
      → f.value ≡ text s
      → check_fields (f ∷ fs) ≡ check_fields fs
  unfolding check_fields
  check_fields-valid f fs s good e = rw (check_fields, good, e)

  check_fields-other :
      (f : Field) (fs : List Field)
      → is_region_name f.name ≡ true
      → f.value ≡ other_value
      → check_fields (f ∷ fs) ≡ some (not_text f.name)
  unfolding check_fields
  check_fields-other f fs good e = rw (check_fields, good, e)

  pub check_fields-Checked : (fs : List Field) → Checked fs (check_fields fs)
  unfolding check_fields
  check_fields-Checked [] = tt
  check_fields-Checked (f ∷ fs) = elim (Bool-cases (is_region_name f.name)) [
    | inr bad ↦ rw (check_fields, bad) (λ within. (f, within f (Memᴰ.head refl), refl, bad))
    | inl good ↦ elim (Value-cases f.value) [
      | inr other ↦
          subst (Checked (f ∷ fs)) (sym (check_fields-other f fs good other))
            (λ within. (f, within f (Memᴰ.head refl), refl, other))
      | inl (s, e) ↦
          subst (Checked (f ∷ fs)) (sym (check_fields-valid f fs s good e))
            (Checked-cons f fs (check_fields fs) (good, s, e) (check_fields-Checked fs))
    ]
  ]

  pub names_of-valid :
      (fs : List Field) → All IsValid fs → All (λ r. is_region_name r ≡ true) (names_of fs)
  names_of-valid [] h = tt
  names_of-valid (f ∷ fs) ((good, _, _), h) = (good, names_of-valid fs h)
