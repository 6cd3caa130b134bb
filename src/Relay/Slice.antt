-- ===== src/Relay/Slice.antt =====
-- Go byte slices with their capacity, and code that may panic. A slice expression may extend a
-- slice up to its capacity, so `mem` is the backing array from the slice's first byte to the end of
-- the capacity, of which the first `len` bytes are the slice's elements.
use vpnproxy.Base.{
  ℕ, zero, suc, ◌+◌, ◌-◌, ◌*◌, ◌≤◌, ◌<◌, ◌&&◌, [], ◌∷◌, ◌++◌, Option, none, some, ◌≡◌, refl, sym,
  ap, ◌∙◌, arith, Bytes, ltb, leb, lt→ltb, le→leb, if◌then◌else◌, length, get_elem?, take, drop,
  drop-length,
}

-- The result of a call: a value, a run-time panic, or (of a loop on fuel) no fuel left.
pub data Outcome {ℓ} (A : Type ℓ) : Type ℓ where
  returns : A → Outcome A
  panics : Outcome A
  exhausted : Outcome A

infixl 5 ◌>>=◌
abbrev pub ◌>>=◌ {ℓ κ} : {A : Type ℓ} {B : Type κ} → Outcome A → (A → Outcome B) → Outcome B
returns a >>= f = f a
panics >>= f = panics
exhausted >>= f = exhausted

pub record Slice : Type 0 where
  pub len : ℕ
  pub mem : Bytes

abbrev pub or_panic {ℓ} : {A : Type ℓ} → Option A → Outcome A
or_panic none = panics
or_panic (some a) = returns a

-- `s[i]`
unfoldable pub index : Slice → ℕ → Outcome ℕ
index s i = if ltb i s.len then or_panic (get_elem? s.mem i) else panics

-- `s[a:b]`
unfoldable pub slice : Slice → ℕ → ℕ → Outcome Slice
slice s a b =
    if leb a b && leb b (length s.mem)
    then returns (record { len = b - a; mem = drop a s.mem })
    else panics

-- `s[a:]`
unfoldable pub slice_from : Slice → ℕ → Outcome Slice
unfolding slice
slice_from s a = slice s a s.len

-- `string(s)`
abbrev pub text : Slice → Bytes
text s = take s.len s.mem

-- `int(s[p])<<8 | int(s[p+1])`; the operands of `|` share no bit, since `s[p+1]` is a byte
unfoldable pub big_endian : Slice → ℕ → Outcome ℕ
unfolding index
big_endian s p = do hi ← index s p; lo ← index s (p + 1); returns (hi * 256 + lo)

-- The memory from a position on, as the reads see it.
drop-nil : (n : ℕ) → drop {A = ℕ} n [] ≡ []
drop-nil zero = refl
drop-nil (suc n) = refl

pub drop-drop : (a b q : ℕ) (m : Bytes) → q ≡ a + b → drop b (drop a m) ≡ drop q m
drop-drop zero b q m h = let e : q ≡ b = omega arith in rw e refl
drop-drop (suc a) b q [] h = rw (drop-nil b, drop-nil q)
drop-drop (suc a) b zero (x ∷ m) h = absurd (omega arith)
drop-drop (suc a) b (suc q) (x ∷ m) h = drop-drop a b q m (omega arith)

pub drop-past :
    (p q : ℕ) (m xs ys : Bytes) → drop p m ≡ xs ++ ys → q ≡ p + length xs → drop q m ≡ ys
drop-past p q m xs ys e h =
    sym (drop-drop p (length xs) q m h) ∙ ap (drop (length xs)) e ∙ drop-length _ xs ys refl

pub get_elem?-drop :
    (p : ℕ) (m : Bytes) (x : ℕ) (xs : Bytes) → drop p m ≡ x ∷ xs → get_elem? m p ≡ some x
get_elem?-drop zero [] x xs e = cc
get_elem?-drop zero (y ∷ m) x xs e = ground arith
get_elem?-drop (suc p) [] x xs e = cc
get_elem?-drop (suc p) (y ∷ m) x xs e = get_elem?-drop p m x xs e

pub index-drop :
    (s : Slice) (p x : ℕ) (xs : Bytes) → drop p s.mem ≡ x ∷ xs → p < s.len → index s p ≡ returns x
unfolding index
index-drop s p x xs e h = rw (lt→ltb p s.len h, get_elem?-drop p s.mem x xs e)

pub big_endian-drop :
    (s : Slice) (p hi lo : ℕ) (xs : Bytes)
    → drop p s.mem ≡ hi ∷ lo ∷ xs
    → p + 1 < s.len
    → big_endian s p ≡ returns (hi * 256 + lo)
unfolding big_endian
big_endian-drop s p hi lo xs e h =
    let next = drop-past p (p + 1) s.mem (hi ∷ []) (lo ∷ xs) e (omega arith) in
    ground (arith, get_elem?-drop p s.mem hi (lo ∷ xs) e, get_elem?-drop (p + 1) s.mem lo xs next)

pub slice_lem :
    (s : Slice) (a b : ℕ)
    → a ≤ b
    → b ≤ length s.mem
    → slice s a b ≡ returns (record { len = b - a; mem = drop a s.mem })
unfolding slice
slice_lem s a b h k = rw (le→leb a b h, le→leb b (length s.mem) k)
