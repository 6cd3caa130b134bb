-- ===== src/Config/Regions/Members.antt =====
-- The set of regions that `runList` collects from the entries of a directory.
use mathlib.Core.List.Memᴰ
use vpnproxy.Base.{
  true, false, not, ◌&&◌, List, [], ◌∷◌, ◌++◌, Option, none, some, ◌≡◌, ◌≢◌, ◌⊎◌, inl, inr, refl,
  sym, ap, ◌∙◌, arith, Bytes, codes, All, Memᴰ, Bool-cases,
}
use vpnproxy.Go.Text.{equal, has_suffix}
use vpnproxy.Go.Text.Laws.{equal_iff_eq, equal_self}
use vpnproxy.Go.Text.Sort.{Distinct, has_suffix-trim, has_suffix-append, trim_suffix-append}
use vpnproxy.Config.Regions.{DirEntry, named, region_of, has_region, add_region, add_entries}

-- An entry is the configuration file of a region.
abbrev pub IsConfig : Bytes → DirEntry → Type 0
IsConfig r e = (r ≢ []) × (e.is_dir ≡ false) × (e.name ≡ r ++ codes ".conf")

named-some : (s r : Bytes) → named s ≡ some r → (s ≡ r) × (r ≢ [])
named-some [] r h = cc
named-some (c ∷ s) r h = let e : c ∷ s ≡ r = cc in (e, rw (sym e) (λ q. cc))

some-named : (r : Bytes) → r ≢ [] → named r ≡ some r
some-named [] ne = absurd (ne refl)
some-named (c ∷ r) ne = refl

region_of-IsConfig : (e : DirEntry) (r : Bytes) → region_of e ≡ some r → IsConfig r e
unfolding region_of
region_of-IsConfig e r h = elim (Bool-cases (not e.is_dir && has_suffix e.name (codes ".conf"))) [
  | inl plain ↦
      let (trimmed, ne) = named-some _ r (rw (region_of, plain) at h) in
      let file : e.is_dir ≡ false = ground arith in
      let suffix : has_suffix e.name (codes ".conf") ≡ true = ground arith in
      (
        ne,
        file,
        has_suffix-trim e.name (codes ".conf") suffix ∙ ap (λ x. x ++ codes ".conf") trimmed,
      )
  | inr other ↦ absurd (cc (rw (region_of, other) at h))
]

IsConfig-region_of : (e : DirEntry) (r : Bytes) → IsConfig r e → region_of e ≡ some r
unfolding region_of
IsConfig-region_of e r (ne, file, name) =
    rw
      (
        region_of,
        file,
        name,
        has_suffix-append r (codes ".conf"),
        trim_suffix-append r (codes ".conf"),
      )
      (some-named r ne)

has_region-mem : (r : Bytes) (set : List Bytes) → has_region r set ≡ true → Memᴰ r set
unfolding has_region
has_region-mem r [] h = cc
has_region-mem r (s ∷ set) h = elim (Bool-cases (equal r s)) [
  | inl same ↦ Memᴰ.head (equal_iff_eq r s same)
  | inr other ↦ Memᴰ.tail (has_region-mem r set (rw other at h))
]

has_region-apart : (r : Bytes) (set : List Bytes) → has_region r set ≡ false → All (λ s. r ≢ s) set
unfolding has_region
has_region-apart r [] h = tt
has_region-apart r (s ∷ set) h = elim (Bool-cases (equal r s)) [
  | inl same ↦ absurd (cc (rw same at h))
  | inr other ↦ (
    (λ e. cc (sym other ∙ ap (equal r) (sym e) ∙ equal_self r)),
    has_region-apart r set (rw other at h),
  )
]

-- The set of regions after an entry.
add_region-Distinct :
    (o : Option Bytes) (set : List Bytes) → Distinct set → Distinct (add_region o set)
unfolding add_region
add_region-Distinct none set d = d
add_region-Distinct (some r) set d = elim (Bool-cases (has_region r set)) [
  | inl has ↦ rw (add_region, has) d
  | inr lacks ↦ rw (add_region, lacks) (has_region-apart r set lacks, d)
]

add_region_left :
    (o : Option Bytes) (set : List Bytes) (r : Bytes) → Memᴰ r set → Memᴰ r (add_region o set)
unfolding add_region
add_region_left none set r m = m
add_region_left (some s) set r m = elim (Bool-cases (has_region s set)) [
  | inl has ↦ rw (add_region, has) m
  | inr lacks ↦ rw (add_region, lacks) (Memᴰ.tail m)
]

add_region_right : (r : Bytes) (set : List Bytes) → Memᴰ r (add_region (some r) set)
unfolding add_region
add_region_right r set = elim (Bool-cases (has_region r set)) [
  | inl has ↦ rw (add_region, has) (has_region-mem r set has)
  | inr lacks ↦ rw (add_region, lacks) (Memᴰ.head refl)
]

add_region_of :
    (o : Option Bytes) (set : List Bytes) (r : Bytes)
    → Memᴰ r (add_region o set)
    → Memᴰ r set ⊎ (o ≡ some r)
unfolding add_region
add_region_of none set r m = inl m
add_region_of (some s) set r m = elim (Bool-cases (has_region s set)) [
  | inl has ↦ inl (rw (add_region, has) at m)
  | inr lacks ↦ elim (Memᴰ.cases_cons (rw (add_region, lacks) at m)) [
    | inl e ↦ inr (ap some (sym e))
    | inr m' ↦ inl m'
  ]
]

abbrev pub From : List DirEntry → Bytes → Type 0
From es r = (e : DirEntry) × Memᴰ e es × IsConfig r e

pub add_entries-Distinct :
    (es : List DirEntry) (set : List Bytes) → Distinct set → Distinct (add_entries es set)
unfolding add_entries
add_entries-Distinct [] set d = d
add_entries-Distinct (e ∷ es) set d =
    add_entries-Distinct es (add_region (region_of e) set) (add_region-Distinct (region_of e) set d)

pub add_entries_left :
    (es : List DirEntry) (set : List Bytes) (r : Bytes) → Memᴰ r set → Memᴰ r (add_entries es set)
unfolding add_entries
add_entries_left [] set r m = m
add_entries_left (e ∷ es) set r m =
    add_entries_left es (add_region (region_of e) set) r (add_region_left (region_of e) set r m)

pub add_entries_right :
    (es : List DirEntry) (set : List Bytes) (r : Bytes) → From es r → Memᴰ r (add_entries es set)
unfolding add_entries
add_entries_right [] set r (e, m, is) = absurd (Memᴰ.not-nil m)
add_entries_right (f ∷ es) set r (e, m, is) = elim (Memᴰ.cases_cons m) [
  | inl same ↦
      let region : region_of f ≡ some r = ap region_of (sym same) ∙ IsConfig-region_of e r is in
      rw region (add_entries_left es (add_region (some r) set) r (add_region_right r set))
  | inr m' ↦ add_entries_right es (add_region (region_of f) set) r (e, m', is)
]

pub add_entries_of :
    (es : List DirEntry) (set : List Bytes) (r : Bytes)
    → Memᴰ r (add_entries es set)
    → Memᴰ r set ⊎ From es r
unfolding add_entries
add_entries_of [] set r m = inl m
add_entries_of (e ∷ es) set r m = elim (add_entries_of es (add_region (region_of e) set) r m) [
  | inl m' ↦ elim (add_region_of (region_of e) set r m') [
    | inl old ↦ inl old
    | inr new ↦ inr (e, Memᴰ.head refl, region_of-IsConfig e r new)
  ]
  | inr (f, m', is) ↦ inr (f, Memᴰ.tail m', is)
]
