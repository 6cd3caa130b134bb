-- ===== src/Go/Text/Sort.antt =====
-- What `sort.Strings` does on texts that are all different, and `HasSuffix`.
use mathlib.Core.List.Memᴰ
use vpnproxy.Base.{
  ◌-◌, true, false, List, [], ◌∷◌, ◌++◌, ◌≡◌, ◌≢◌, inl, inr, refl, sym, ap, ◌∙◌, arith, Bytes, All,
  Bool-cases, Memᴰ, length, length-append, take, drop, take-append-drop, take-length, drop-length,
  le→leb, ◌==◌,
}
use vpnproxy.Go.Text.{equal, has_suffix, trim_suffix, less, insert, sort}
use vpnproxy.Go.Text.Laws.{equal_iff_eq, equal_self}

pub less_trans : (a b c : Bytes) → less a b ≡ true → less b c ≡ true → less a c ≡ true
unfolding less
less_trans [] (y ∷ b) (z ∷ c) h k = refl
less_trans (x ∷ a) (y ∷ b) (z ∷ c) h k = ground (arith, less_trans a b c)
less_trans a [] c h k = absurd (cc h)
less_trans a (y ∷ b) [] h k = absurd (cc k)

pub less_total : (a b : Bytes) → less a b ≡ false → a ≢ b → less b a ≡ true
unfolding less
less_total [] [] h ne = absurd (ne refl)
less_total (x ∷ a) [] h ne = refl
less_total [] (y ∷ b) h ne = cc
less_total (x ∷ a) (y ∷ b) h ne = elim (Bool-cases (x == y)) [
  | inl same ↦
      let e : x ≡ y = ground arith in
      let below : less a b ≡ false = ground arith in
      let apart : a ≢ b = λ q. ne (ap (◌∷ a) e ∙ ap (y ∷◌) q) in
      ground (arith, less_total a b below apart)
  | inr other ↦ ground arith
]

-- Each text comes before all behind it; so no text comes twice.
abbrev pub Ascending : List Bytes → Type 0
Ascending [] = Unit
Ascending (s ∷ ss) = All (λ t. less s t ≡ true) ss × Ascending ss

abbrev pub Distinct : List Bytes → Type 0
Distinct [] = Unit
Distinct (s ∷ ss) = All (λ t. s ≢ t) ss × Distinct ss

insert_before : (s t : Bytes) (ts : List Bytes) → less s t ≡ true → insert s (t ∷ ts) ≡ s ∷ t ∷ ts
unfolding insert
insert_before s t ts h = rw (insert, h)

insert_behind :
    (s t : Bytes) (ts : List Bytes) → less s t ≡ false → insert s (t ∷ ts) ≡ t ∷ insert s ts
unfolding insert
insert_behind s t ts h = rw (insert, h)

module _ {κ} (P : Bytes → Type κ) where
  All-insert : (s : Bytes) (ss : List Bytes) → P s → All P ss → All P (insert s ss)
  unfolding insert
  All-insert s [] p h = (p, tt)
  All-insert s (t ∷ ts) p (q, h) = elim (Bool-cases (less s t)) [
    | inl before ↦ rw (insert_before s t ts before) (p, (q, h))
    | inr behind ↦ rw (insert_behind s t ts behind) (q, All-insert s ts p h)
  ]

  pub All-sort : (ss : List Bytes) → All P ss → All P (sort ss)
  unfolding sort
  All-sort [] h = tt
  All-sort (s ∷ ss) (p, h) = All-insert s (sort ss) p (All-sort ss h)

All-map {κ μ} :
    {P : Bytes → Type κ} {Q : Bytes → Type μ}
    → ((s : Bytes) → P s → Q s)
    → (ss : List Bytes) → All P ss
    → All Q ss
All-map f [] h = tt
All-map f (s ∷ ss) (p, h) = (f s p, All-map f ss h)

insert-Ascending :
    (s : Bytes) (ss : List Bytes) → All (λ t. s ≢ t) ss → Ascending ss → Ascending (insert s ss)
unfolding insert
insert-Ascending s [] ne h = (tt, tt)
insert-Ascending s (t ∷ ts) (ne, nes) (low, h) = elim (Bool-cases (less s t)) [
  | inl before ↦
      rw (insert_before s t ts before)
        ((before, All-map (λ u lt. less_trans s t u before lt) ts low), (low, h))
  | inr behind ↦ rw (insert_behind s t ts behind) (
    All-insert (λ u. less t u ≡ true) s ts (less_total s t behind ne) low,
    insert-Ascending s ts nes h,
  )
]

pub sort-Ascending : (ss : List Bytes) → Distinct ss → Ascending (sort ss)
unfolding sort
sort-Ascending [] h = tt
sort-Ascending (s ∷ ss) (ne, h) =
    insert-Ascending s (sort ss) (All-sort (λ t. s ≢ t) ss ne) (sort-Ascending ss h)

-- Sorting keeps the elements.
mem_of_insert : (r s : Bytes) (ss : List Bytes) → Memᴰ r (insert s ss) → Memᴰ r (s ∷ ss)
unfolding insert
mem_of_insert r s [] m = m
mem_of_insert r s (t ∷ ts) m = elim (Bool-cases (less s t)) [
  | inl before ↦ rw (insert_before s t ts before) at m
  | inr behind ↦ elim (Memᴰ.cases_cons (rw (insert_behind s t ts behind) at m)) [
    | inl e ↦ Memᴰ.tail (Memᴰ.head e)
    | inr m' ↦ elim (Memᴰ.cases_cons (mem_of_insert r s ts m')) [
      | inl e ↦ Memᴰ.head e
      | inr m'' ↦ Memᴰ.tail (Memᴰ.tail m'')
    ]
  ]
]

insert_of_mem : (r s : Bytes) (ss : List Bytes) → Memᴰ r (s ∷ ss) → Memᴰ r (insert s ss)
unfolding insert
insert_of_mem r s [] m = m
insert_of_mem r s (t ∷ ts) m = elim (Bool-cases (less s t)) [
  | inl before ↦ rw (insert_before s t ts before) m
  | inr behind ↦ rw (insert_behind s t ts behind) (elim (Memᴰ.cases_cons m) [
    | inl e ↦ Memᴰ.tail (insert_of_mem r s ts (Memᴰ.head e))
    | inr m' ↦ elim (Memᴰ.cases_cons m') [
      | inl e ↦ Memᴰ.head e
      | inr m'' ↦ Memᴰ.tail (insert_of_mem r s ts (Memᴰ.tail m''))
    ]
  ])
]

pub mem_of_sort : (r : Bytes) (ss : List Bytes) → Memᴰ r (sort ss) → Memᴰ r ss
unfolding sort
mem_of_sort r [] m = m
mem_of_sort r (s ∷ ss) m = elim (Memᴰ.cases_cons (mem_of_insert r s (sort ss) m)) [
  | inl e ↦ Memᴰ.head e
  | inr m' ↦ Memᴰ.tail (mem_of_sort r ss m')
]

pub sort_of_mem : (r : Bytes) (ss : List Bytes) → Memᴰ r ss → Memᴰ r (sort ss)
unfolding sort
sort_of_mem r [] m = m
sort_of_mem r (s ∷ ss) m =
    insert_of_mem r s (sort ss)
      (elim (Memᴰ.cases_cons m) [ inl e ↦ Memᴰ.head e | inr m' ↦ Memᴰ.tail (sort_of_mem r ss m') ])

-- A text ends in `p` exactly when it is what `TrimSuffix` leaves, with `p` behind.
pub has_suffix-trim : (s p : Bytes) → has_suffix s p ≡ true → s ≡ trim_suffix s p ++ p
unfolding has_suffix
has_suffix-trim s p h = elim (Bool-cases (equal (drop (length s - length p) s) p)) [
  | inl same ↦
      sym (take-append-drop (length s - length p) s)
      ∙ ap (take (length s - length p) s ++◌) (equal_iff_eq _ p same)
  | inr other ↦ absurd (ground arith)
]

pub has_suffix-append : (s p : Bytes) → has_suffix (s ++ p) p ≡ true
unfolding has_suffix
has_suffix-append s p =
    let size = length-append s p in
    rw (
      drop-length (length (s ++ p) - length p) s p (omega (arith, size)),
      equal_self p,
      le→leb (length p) (length (s ++ p)) (omega (arith, size)),
    )

pub trim_suffix-append : (s p : Bytes) → trim_suffix (s ++ p) p ≡ s
trim_suffix-append s p =
    take-length (length (s ++ p) - length p) s p (omega (arith, length-append s p))
