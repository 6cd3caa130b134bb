-- ===== src/Relay/Post.antt =====
-- Postconditions of code that may panic: the rules that walk through a body.
use vpnproxy.Base.{
  ℕ, ◌+◌, ◌-◌, ◌≤◌, ◌&&◌, Bool, true, false, Option, none, some, inl, inr, ◌≡◌, refl, arith, ltb,
  leb, get_elem?, if◌then◌else◌, length, drop, Bool-cases,
}
use vpnproxy.Relay.Slice.{
  Outcome, returns, panics, ◌>>=◌, Slice, index, slice, or_panic, big_endian, slice_lem,
}

-- The code panics or returns a value with `P`; a loop has not run out of fuel.
pub data Post {ℓ κ} {A : Type ℓ} (P : A → Type κ) : Outcome A → Type (ℓ ⊔ κ) where
  returned : (a : A) → P a → Post P (returns a)
  panicked : Post P panics

module _ {ℓ κ} {B : Type ℓ} {P : B → Type κ} where
  pub Post-bind {ℓ' κ'} :
      {A : Type ℓ'} {Q : A → Type κ'} {m : Outcome A} {f : A → Outcome B}
      → Post Q m
      → ((a : A) → Q a → Post P (f a))
      → Post P (m >>= f)
  Post-bind (returned a q) k = k a q
  Post-bind panicked k = panicked

  pub Post-if : (b : Bool) {x y : Outcome B} → Post P x → Post P y → Post P (if b then x else y)
  Post-if true px py = px
  Post-if false px py = py

pub Post-map {ℓ κ κ'} :
    {A : Type ℓ} {P : A → Type κ} {Q : A → Type κ'} {m : Outcome A}
    → Post P m
    → ((a : A) → P a → Q a)
    → Post Q m
Post-map (returned a p) k = returned a (k a p)
Post-map panicked k = panicked

abbrev pub Always {ℓ} : {A : Type ℓ} → A → Type 0
Always _ = Unit {0}

or_panic-Post {ℓ} : {A : Type ℓ} (o : Option A) → Post Always (or_panic o)
or_panic-Post none = panicked
or_panic-Post (some a) = returned a tt

pub index-Post : (s : Slice) (i : ℕ) → Post Always (index s i)
unfolding index
index-Post s i = Post-if (ltb i s.len) (or_panic-Post (get_elem? s.mem i)) panicked

pub big_endian-Post : (s : Slice) (p : ℕ) → Post Always (big_endian s p)
unfolding big_endian
big_endian-Post s p =
    Post-bind (index-Post s p) λ hi _. Post-bind (index-Post s (p + 1)) λ lo _. returned _ tt

-- What a slice expression that does not panic gives.
abbrev pub IsCut : Slice → ℕ → ℕ → Slice → Type 0
IsCut s a b t = (a ≤ b) × (b ≤ length s.mem) × (t.len ≡ b - a) × (t.mem ≡ drop a s.mem)

pub slice-Post : (s : Slice) (a b : ℕ) → Post (IsCut s a b) (slice s a b)
unfolding slice
slice-Post s a b = elim (Bool-cases (leb a b && leb b (length s.mem))) [
  | inl fits ↦
      let low : a ≤ b = ground arith in
      let high : b ≤ length s.mem = ground arith in
      rw (slice_lem s a b low high) (returned _ (low, high, refl, refl))
  | inr out ↦ rw (slice, out) panicked
]
