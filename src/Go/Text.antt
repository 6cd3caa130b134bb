-- ===== src/Go/Text.antt =====
-- Package strings, as the program calls it.
pub mod Laws
pub mod Sort
use vpnproxy.Base.{
  ℕ, zero, suc, ◌+◌, ◌-◌, Bool, true, false, not, ◌&&◌, ◌||◌, List, [], ◌∷◌, ◌++◌, reverse, Option,
  none, some, Bytes, ltb, leb, ◌==◌, if◌then◌else◌, length, drop, take,
}

-- `a == b`
unfoldable pub equal : Bytes → Bytes → Bool
equal [] t = elim t [ [] ↦ true | d ∷ t' ↦ false ]
equal (c ∷ s) [] = false
equal (c ∷ s) (d ∷ t) = c == d && equal s t

-- `strings.HasPrefix(s, p)`
unfoldable pub has_prefix : Bytes → Bytes → Bool
has_prefix s [] = true
has_prefix [] (c ∷ p) = false
has_prefix (d ∷ s) (c ∷ p) = d == c && has_prefix s p

-- `strings.HasSuffix(s, p)`, and `strings.TrimSuffix(s, p)` where that holds.
unfoldable pub has_suffix : Bytes → Bytes → Bool
unfolding equal
has_suffix s p = leb (length p) (length s) && equal (drop (length s - length p) s) p

abbrev pub trim_suffix : Bytes → Bytes → Bytes
trim_suffix s p = take (length s - length p) s

-- `s < t`
unfoldable pub less : Bytes → Bytes → Bool
less s [] = false
less [] (d ∷ t) = true
less (c ∷ s) (d ∷ t) = if c == d then less s t else ltb c d

-- `sort.Strings`, by insertion.
unfoldable pub insert : Bytes → List Bytes → List Bytes
insert s [] = s ∷ []
insert s (t ∷ ts) = elim (less s t) [ true ↦ s ∷ t ∷ ts | false ↦ t ∷ insert s ts ]

unfoldable pub sort : List Bytes → List Bytes
sort [] = []
sort (s ∷ ss) = insert s (sort ss)

-- `strings.IndexByte(s, c) >= 0`
unfoldable pub contains : Bytes → ℕ → Bool
contains [] c = false
contains (d ∷ s) c = d == c || contains s c

-- A byte in front of the first part.
abbrev pub push : ℕ → List Bytes → List Bytes
push c [] = (c ∷ []) ∷ []
push c (p ∷ ps) = (c ∷ p) ∷ ps

-- `strings.Split(s, sep)` for a `sep` that is not empty; `skip` bytes of a separator are left.
unfoldable pub split_from : Bytes → ℕ → Bytes → List Bytes
split_from sep skip [] = [] ∷ []
split_from sep (suc skip) (c ∷ s) = split_from sep skip s
split_from sep zero (c ∷ s) = elim (has_prefix (c ∷ s) sep) [
  | true ↦ [] ∷ split_from sep (length sep - 1) s
  | false ↦ push c (split_from sep zero s)
]

unfoldable pub split : Bytes → Bytes → List Bytes
split s sep = split_from sep zero s

-- `strings.Cut(s, sep)` for a separator of one byte.
unfoldable pub cut : Bytes → ℕ → Option (Bytes × Bytes)
cut [] sep = none
cut (c ∷ s) sep =
    let rest = cut s sep in
    if c == sep then some ([], s) else elim rest [ none ↦ none | some (a, b) ↦ some (c ∷ a, b) ]

-- The encodings of Unicode's white space, by their lengths.
abbrev pub space1 : ℕ → Bool
space1 a = a == b' ' || (leb 9 a && leb a 13)

abbrev pub space2 : ℕ → ℕ → Bool
space2 a b = a == 0xc2 && (b == 0x85 || b == 0xa0)

abbrev pub space3 : ℕ → ℕ → ℕ → Bool
space3 a b c =
    (a == 0xe1 && b == 0x9a && c == 0x80)
    || (a == 0xe2
        && b == 0x80
        && ((leb 0x80 c && leb c 0x8a) || c == 0xa8 || c == 0xa9 || c == 0xaf))
    || (a == 0xe2 && b == 0x81 && c == 0x9f)
    || (a == 0xe3 && b == 0x80 && c == 0x80)

-- Space is dropped from the front; the flag says that the text is reversed.
unfoldable pub trim_front : Bool → Bytes → Bytes
trim_front back [] = []
trim_front back (a ∷ []) = if space1 a then [] else a ∷ []
trim_front back (a ∷ b ∷ []) =
    let one = trim_front back (b ∷ []) in
    let two = if back then space2 b a else space2 a b in
    if space1 a then one else if two then [] else a ∷ b ∷ []
trim_front back (a ∷ b ∷ c ∷ s) =
    let one = trim_front back (b ∷ c ∷ s) in
    let after_two = trim_front back (c ∷ s) in
    let after_three = trim_front back s in
    let two = if back then space2 b a else space2 a b in
    let three = if back then space3 c b a else space3 a b c in
    if space1 a
    then one
    else if two
    then after_two
    else if three
    then after_three
    else a ∷ b ∷ c ∷ s

-- `strings.TrimSpace(s)`
unfoldable pub trim_space : Bytes → Bytes
trim_space s = reverse (trim_front true (reverse (trim_front false s)))

-- `strings.TrimLeft(s, c)` and `strings.Trim(s, c)` for a set of one byte, and `strings.TrimPrefix`.
unfoldable pub trim_left : Bytes → ℕ → Bytes
trim_left [] c = []
trim_left (d ∷ s) c = let rest = trim_left s c in if d == c then rest else d ∷ s

abbrev pub trim : Bytes → ℕ → Bytes
trim s c = reverse (trim_left (reverse (trim_left s c)) c)

abbrev pub trim_prefix : Bytes → Bytes → Bytes
trim_prefix s p = if has_prefix s p then drop (length p) s else s

-- `unicode.ToLower` on an ASCII byte.
abbrev pub lower : ℕ → ℕ
lower c = if leb b'A' c && leb c b'Z' then c + 32 else c

-- The next letter, folded, where it may equal an ASCII letter under Unicode's simple folding: the
-- long s (U+017F) folds to `s`, and the Kelvin sign (U+212A) to `k`.
unfoldable pub next_folded : Bytes → Option (ℕ × Bytes)
unfolding has_prefix
next_folded [] = none
next_folded (c ∷ s) =
    if ltb c 128
    then some (lower c, s)
    else if has_prefix (c ∷ s) (0xc5 ∷ 0xbf ∷ [])
    then some (b's', drop 1 s)
    else if has_prefix (c ∷ s) (0xe2 ∷ 0x84 ∷ 0xaa ∷ [])
    then some (b'k', drop 2 s)
    else none

-- `strings.EqualFold(s, t)` for a `t` of ASCII.
unfoldable pub equal_fold : Bytes → Bytes → Bool
unfolding next_folded
equal_fold [] [] = true
equal_fold (c ∷ s) [] = false
equal_fold s (d ∷ t) = elim (next_folded s) [
  | none ↦ false
  | some (c, rest) ↦ c == lower d && equal_fold rest t
]

-- `strings.Join`
unfoldable pub join_text : Bytes → List Bytes → Bytes
join_text sep [] = []
join_text sep (s ∷ []) = s
join_text sep (s ∷ t ∷ texts) = s ++ (sep ++ join_text sep (t ∷ texts))
