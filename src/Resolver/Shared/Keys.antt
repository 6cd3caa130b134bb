-- ===== src/Resolver/Shared/Keys.antt =====
-- Reading a table that was written at one place.
use vpnproxy.Base.{
  ℕ, true, false, ◌≡◌, ◌≢◌, ◌⊎◌, inl, inr, sym, ◌∙◌, arith, Bytes, ◌==◌, Bool-cases,
}
use vpnproxy.Go.Text.{equal}
use vpnproxy.Go.Text.Laws.{equal_iff_eq, equal_self}
use vpnproxy.Resolver.Shared.{put_key, put}

module _ {ℓ} {A : Type ℓ} where
  pub put_self : (i : ℕ) (v : A) (f : ℕ → A) → put i v f i ≡ v
  put_self i v f = ground arith

  pub put_other : (i j : ℕ) (v : A) (f : ℕ → A) → j ≢ i → put i v f j ≡ f j
  put_other i j v f ne = ground arith

  -- Read behind a write: the value written, or what stood there.
  pub put_cases :
      (i j : ℕ) (v : A) (f : ℕ → A)
      → ((j ≡ i) × (put i v f j ≡ v)) ⊎ ((j ≢ i) × (put i v f j ≡ f j))
  put_cases i j v f = elim (Bool-cases (j == i)) [
    | inl same ↦ let e : j ≡ i = ground arith in inl (e, rw same)
    | inr other ↦ let ne : j ≢ i = ground arith in inr (ne, rw other)
  ]

  pub put_key_self : (k : Bytes) (v : A) (f : Bytes → A) → put_key k v f k ≡ v
  put_key_self k v f = rw (equal_self k)

  pub put_key_cases :
      (k j : Bytes) (v : A) (f : Bytes → A)
      → ((j ≡ k) × (put_key k v f j ≡ v)) ⊎ ((j ≢ k) × (put_key k v f j ≡ f j))
  put_key_cases k j v f = elim (Bool-cases (equal j k)) [
    | inl same ↦ inl (equal_iff_eq j k same, rw same)
    | inr other ↦ inr ((λ e. cc (differs j k other e)), rw other)
  ]
    where
      differs : (a b : Bytes) → equal a b ≡ false → a ≡ b → true ≡ false
      differs a b h e = sym (equal_self b) ∙ (rw e at h)
