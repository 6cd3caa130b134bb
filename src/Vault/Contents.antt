-- ===== src/Vault/Contents.antt =====
-- What the fields of a secret say that their files are to hold (vault.go).
use mathlib.Core.List.Memᴰ
use mathlib.Core.Path.{subst}
use vpnproxy.Base.{
  true, false, List, [], ◌∷◌, ◌++◌, ◌≡◌, ◌⊎◌, inl, inr, refl, sym, ap, ◌∙◌, Bytes, All, Memᴰ,
  Bool-cases, mem_later,
}
use vpnproxy.Go.Text.{equal, has_suffix, trim_suffix}
use vpnproxy.Go.Text.Laws.{equal_iff_eq, equal_self}
use vpnproxy.Go.Text.Sort.{Distinct, has_suffix-trim, has_suffix-append}
use vpnproxy.Vault.{Field, text, is_region_name, content_of, end_line, names_of}
use vpnproxy.Vault.Fields.{IsValid, names_of-valid}

-- A text that ends in a line end is kept as it is, and any other gets one.
abbrev pub IsEnded : Bytes → Bytes → Type 0
IsEnded s content =
    (((line : Bytes) × (s ≡ line ++ b'\n' ∷ [])) × (content ≡ s))
    ⊎ ((¬ ((line : Bytes) × (s ≡ line ++ b'\n' ∷ []))) × (content ≡ s ++ b'\n' ∷ []))

end_line-IsEnded : (s : Bytes) → IsEnded s (end_line s)
unfolding end_line
end_line-IsEnded s = elim (Bool-cases (has_suffix s (b'\n' ∷ []))) [
  | inl ends ↦
      rw (end_line, ends)
        (inl ((trim_suffix s (b'\n' ∷ []), has_suffix-trim s (b'\n' ∷ []) ends), refl))
  | inr lacks ↦
      rw (end_line, lacks)
        (inr (
          (λ (line, e). cc (
              sym lacks
              ∙ ap (λ t. has_suffix t (b'\n' ∷ [])) e
              ∙ has_suffix-append line (b'\n' ∷ []))),
          refl,
        ))
]

-- There is a field of this name whose text, ended by a line end, is the content.
abbrev pub IsHeld : List Field → Bytes → Bytes → Type 0
IsHeld fields name content =
    (s : Bytes) × Memᴰ (record { name = name; value = text s }) fields × IsEnded s content

content_of-head :
    (f : Field) (fs : List Field) (s : Bytes) → f.value ≡ text s → content_of (f ∷ fs) f.name ≡ s
unfolding content_of
content_of-head f fs s e = rw (content_of, equal_self f.name, e)

content_of-tail :
    (f : Field) (fs : List Field) (r : Bytes)
    → equal f.name r ≡ false
    → content_of (f ∷ fs) r ≡ content_of fs r
unfolding content_of
content_of-tail f fs r h = rw (content_of, h)

same_field :
    (f : Field) (s : Bytes)
    → f.value ≡ text s
    → ◌≡◌ {A = Field} (record { name = f.name; value = text s }) f
same_field f s e = ap (λ v. record { name = f.name; value = v }) (sym e)

module _ (fields : List Field) where
  content_of-mem :
      (fs : List Field) (r : Bytes)
      → Distinct (names_of fs)
      → All (IsValid fields) fs
      → Memᴰ r (names_of fs)
      → Memᴰ (record { name = r; value = text (content_of fs r) }) fs
  content_of-mem [] r d h m = absurd (Memᴰ.not-nil m)
  content_of-mem (f ∷ fs) r (apart, d) ((good, s, e), h) m = elim (Bool-cases (equal f.name r)) [
    | inl same ↦ Memᴰ.head (
        subst (λ n. ◌≡◌ {A = Field} (record { name = n; value = text (content_of (f ∷ fs) n) }) f)
          (equal_iff_eq f.name r same)
          (ap (λ t. record { name = f.name; value = text t }) (content_of-head f fs s e)
            ∙ same_field f s e))
    | inr other ↦
        let m' = mem_later (λ q. cc (sym other ∙ ap (equal f.name) q ∙ equal_self f.name)) m in
        Memᴰ.tail (
          subst (λ t. Memᴰ (record { name = r; value = text t }) fs)
            (sym (content_of-tail f fs r other)) (content_of-mem fs r d h m'))
  ]

  -- A name that may be written, and what is written for it.
  abbrev pub IsWritable : Bytes → Type 0
  IsWritable r = (is_region_name r ≡ true) × IsHeld fields r (end_line (content_of fields r))

  names-IsWritable :
      (names : List Bytes)
      → Distinct (names_of fields)
      → All (IsValid fields) fields
      → All (λ r. is_region_name r ≡ true) names
      → ((r : Bytes) → Memᴰ r names → Memᴰ r (names_of fields))
      → All IsWritable names
  names-IsWritable [] d h good within = tt
  names-IsWritable (r ∷ names) d h (g, good) within = (
    (
      g,
      (
        content_of fields r,
        content_of-mem fields r d h (within r (Memᴰ.head refl)),
        end_line-IsEnded (content_of fields r),
      ),
    ),
    names-IsWritable names d h good (λ q m. within q (Memᴰ.tail m)),
  )

  pub names_of-IsWritable :
      Distinct (names_of fields) → All (IsValid fields) fields → All IsWritable (names_of fields)
  names_of-IsWritable d h =
      names-IsWritable (names_of fields) d h (names_of-valid fields fields h) (λ r m. m)
