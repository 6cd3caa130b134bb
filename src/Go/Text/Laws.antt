-- ===== src/Go/Text/Laws.antt =====
-- Laws of the functions on texts: what `split`, `cut`, `contains` and `trim_space` do on texts put
-- together from parts.
use mathlib.Core.List.{reverse-cons, reverse-reverse}
use vpnproxy.Base.{
  ℕ, zero, ◌≤◌, ◌<◌, Bool, true, false, [], ◌∷◌, ◌++◌, reverse, some, ◌≡◌, ◌≢◌, refl, ap, ◌∙◌,
  arith, Bytes, All, length, drop-length,
}
use vpnproxy.Go.Text.{
  equal, has_prefix, contains, split_from, cut, trim_left, trim, trim_prefix, space1, trim_front,
  trim_space,
}

abbrev pub Lacks : ℕ → Bytes → Type 0
Lacks b = All (λ c. c ≢ b)

pub equal_iff_eq : (a b : Bytes) → equal a b ≡ true → a ≡ b
unfolding equal
equal_iff_eq [] [] h = refl
equal_iff_eq (x ∷ a) (y ∷ b) h = ground (arith, equal_iff_eq a b)
equal_iff_eq [] (y ∷ b) h = cc
equal_iff_eq (x ∷ a) [] h = cc

pub equal_self : (a : Bytes) → equal a a ≡ true
unfolding equal
equal_self [] = refl
equal_self (x ∷ a) = ground (arith, equal_self a)

pub contains-Lacks : (s : Bytes) (c : ℕ) → Lacks c s → contains s c ≡ false
unfolding contains
contains-Lacks [] c h = refl
contains-Lacks (d ∷ s) c h = ground (arith, contains-Lacks s c h.1)

pub cut-Lacks : (a b : Bytes) (sep : ℕ) → Lacks sep a → cut (a ++ sep ∷ b) sep ≡ some (a, b)
unfolding cut
cut-Lacks [] b sep h = ground arith
cut-Lacks (c ∷ a) b sep h = ground (arith, cut-Lacks a b sep h.1)

-- Up to a separator of two different bytes, where its first byte stands nowhere before.
pub split_from-line :
    (x y : ℕ) (line rest : Bytes)
    → Lacks x line
    → split_from (x ∷ y ∷ []) zero (line ++ (x ∷ y ∷ rest))
      ≡ line ∷ split_from (x ∷ y ∷ []) zero rest
unfolding split_from has_prefix
split_from-line x y [] rest h = ground arith
split_from-line x y (c ∷ line) rest h = ground (arith, split_from-line x y line rest h.1)

-- Up to a separator of one byte that stands nowhere before.
pub split_from-byte :
    (x : ℕ) (line rest : Bytes)
    → Lacks x line
    → split_from (x ∷ []) zero (line ++ x ∷ rest) ≡ line ∷ split_from (x ∷ []) zero rest
unfolding split_from has_prefix
split_from-byte x [] rest h = ground arith
split_from-byte x (c ∷ line) rest h = ground (arith, split_from-byte x line rest h.1)

-- Visible ASCII.
abbrev pub IsGraphic : ℕ → Type 0
IsGraphic c = (0x21 ≤ c) × (c < 0x7f)

trim_front-graphic :
    (back : Bool) (c : ℕ) (s : Bytes) → IsGraphic c → trim_front back (c ∷ s) ≡ c ∷ s
unfolding trim_front
trim_front-graphic back c [] h = ground arith
trim_front-graphic back c (d ∷ []) h = ground arith
trim_front-graphic back c (d ∷ e ∷ s) h = ground arith

trim_front-space :
    (back : Bool) (c : ℕ) (s : Bytes)
    → space1 c ≡ true
    → trim_front back (c ∷ s) ≡ trim_front back s
unfolding trim_front
trim_front-space back c [] h = rw h
trim_front-space back c (d ∷ []) h = rw h
trim_front-space back c (d ∷ e ∷ s) h = rw h

trim_front-pad :
    (back : Bool) (pad s : Bytes)
    → All (λ c. space1 c ≡ true) pad
    → trim_front back (pad ++ s) ≡ trim_front back s
trim_front-pad back [] s h = refl
trim_front-pad back (c ∷ pad) s (space, h) =
    trim_front-space back c (pad ++ s) space ∙ trim_front-pad back pad s h

reverse_starts :
    (c : ℕ) (s : Bytes)
    → IsGraphic c
    → All IsGraphic s
    → (d : ℕ) × (t : Bytes) × (reverse (c ∷ s) ≡ d ∷ t) × IsGraphic d
reverse_starts c [] h hs = (c, [], refl, h)
reverse_starts c (e ∷ s) h (he, hs) =
    let (d, t, eq, hd) = reverse_starts e s he hs in
    (d, t ++ c ∷ [], reverse-cons c (e ∷ s) ∙ ap (λ x. x ++ c ∷ []) eq, hd)

-- Space before a visible text is dropped, and the text is kept.
trim_space-pad :
    (pad : Bytes) (c : ℕ) (s : Bytes)
    → All (λ x. space1 x ≡ true) pad
    → IsGraphic c
    → All IsGraphic s
    → trim_space (pad ++ c ∷ s) ≡ c ∷ s
unfolding trim_space
trim_space-pad pad c s space h hs =
    let (d, t, eq, hd) = reverse_starts c s h hs in
    let front : trim_front false (pad ++ c ∷ s) ≡ c ∷ s =
      trim_front-pad false pad (c ∷ s) space ∙ trim_front-graphic false c s h in
    let back : trim_front true (reverse (c ∷ s)) ≡ reverse (c ∷ s) =
      rw eq (trim_front-graphic true d t hd) in
    ap (λ x. reverse (trim_front true (reverse x))) front
    ∙ ap reverse back
    ∙ reverse-reverse (c ∷ s)

pub trim_space-visible :
    (pad x : Bytes)
    → All (λ c. space1 c ≡ true) pad
    → All IsGraphic x
    → x ≢ []
    → trim_space (pad ++ x) ≡ x
trim_space-visible pad [] space h ne = absurd (ne refl)
trim_space-visible pad (c ∷ s) space (hc, h) ne = trim_space-pad pad c s space hc h

trim_left-kept : (c : ℕ) (s : Bytes) (b : ℕ) → c ≢ b → trim_left (c ∷ s) b ≡ c ∷ s
unfolding trim_left
trim_left-kept c s b ne = ground arith

-- A text that neither starts nor ends with a byte is kept by `trim`.
pub trim_lem :
    (s : Bytes) (c d : ℕ) (rest back : Bytes)
    → s ≡ c ∷ rest
    → reverse s ≡ d ∷ back
    → (b : ℕ) → c ≢ b
    → d ≢ b
    → trim s b ≡ s
trim_lem s c d rest back front end_ b no_c no_d =
    let keep : trim_left s b ≡ s = rw front (trim_left-kept c rest b no_c) in
    let keep' : trim_left (reverse s) b ≡ reverse s = rw end_ (trim_left-kept d back b no_d) in
    ap (λ x. reverse (trim_left (reverse x) b)) keep ∙ ap reverse keep' ∙ reverse-reverse s

pub has_prefix-append : (p s : Bytes) → has_prefix (p ++ s) p ≡ true
unfolding has_prefix
has_prefix-append [] s = refl
has_prefix-append (c ∷ p) s = ground (arith, has_prefix-append p s)

pub trim_prefix-append : (p s : Bytes) → trim_prefix (p ++ s) p ≡ s
trim_prefix-append p s = rw (has_prefix-append p s) (drop-length (length p) p s refl)
