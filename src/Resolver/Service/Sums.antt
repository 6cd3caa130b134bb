-- ===== src/Resolver/Service/Sums.antt =====
-- Sums over a table, of which one place changes.
use mathlib.Core.Path.{subst}
use vpnproxy.Base.{sym, ℕ, zero, suc, ◌+◌, ◌<◌, ◌≤◌, ◌≡◌, ◌≢◌, inl, inr, refl, arith}
use vpnproxy.Resolver.Shared.{put}
use vpnproxy.Resolver.Shared.Keys.{put_cases, put_other}

-- The sum over the places below a bound.
abbrev pub sum : (ℕ → ℕ) → ℕ → ℕ
sum f zero = 0
sum f (suc n) = f n + sum f n

pub sum_next : (f : ℕ → ℕ) (n : ℕ) → sum f (n + 1) ≡ f n + sum f n
sum_next f n =
    let e : n + 1 ≡ suc n = omega arith in subst (λ m. sum f m ≡ f n + sum f n) (sym e) refl

module _ {ℓ} {A : Type ℓ} (weight : A → ℕ) (i : ℕ) (v : A) (f : ℕ → A) where
  pub sum-put-above :
      (n : ℕ) → n ≤ i → sum (λ j. weight (put i v f j)) n ≡ sum (λ j. weight (f j)) n
  sum-put-above zero h = refl
  sum-put-above (suc n) h =
      let ne : n ≢ i = omega arith in
      let rest = sum-put-above n (omega arith) in rw (put_other i n v f ne, rest)

  pub sum-put :
      (n : ℕ)
      → i < n
      → sum (λ j. weight (put i v f j)) n + weight (f i) ≡ weight v + sum (λ j. weight (f j)) n
  sum-put zero h = absurd (omega arith)
  sum-put (suc n) h = elim (put_cases i n v f) [
    | inl (same, here_) ↦
        let rest = sum-put-above n (omega arith) in rw (here_, rest, same) (omega arith)
    | inr (other, there) ↦ let rest = sum-put n (omega arith) in rw there (omega arith)
  ]
