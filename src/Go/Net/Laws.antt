-- ===== src/Go/Net/Laws.antt =====
-- Laws of `SplitHostPort` and `JoinHostPort`.
use vpnproxy.Base.{
  ℕ, suc, false, [], ◌∷◌, ◌++◌, append_assoc, none, some, ◌≡◌, ◌≢◌, refl, ap, sym, ◌∙◌, arith,
  Bytes, ◌==◌, inl, inr, length, All, All-append, Bool-cases, ==_self,
}
use vpnproxy.Go.Text.{contains}
use vpnproxy.Go.Text.Laws.{Lacks, contains-Lacks, cut-Lacks}
use vpnproxy.Go.Net.{cut_last, bracketed, split_at, split_host_port, join_host_port}

cut_last-Lacks : (s : Bytes) (c : ℕ) → Lacks c s → cut_last s c ≡ none
unfolding cut_last
cut_last-Lacks [] c h = refl
cut_last-Lacks (d ∷ s) c (hd, h) = ground (arith, cut_last-Lacks s c h)

cut_last-append : (a b : Bytes) (c : ℕ) → Lacks c b → cut_last (a ++ c ∷ b) c ≡ some (a, b)
unfolding cut_last
cut_last-append [] b c h = ground (arith, cut_last-Lacks b c h)
cut_last-append (d ∷ a) b c h = rw (cut_last-append a b c h)

-- No byte of the text is a colon or a bracket.
abbrev pub IsPlain : Bytes → Type 0
IsPlain s = Lacks b':' s × Lacks b'[' s × Lacks b']' s

contains-plain :
    (host port : Bytes) (c : ℕ)
    → c ≢ b':'
    → Lacks c host
    → Lacks c port
    → contains (host ++ b':' ∷ port) c ≡ false
contains-plain host port c ne h p =
    contains-Lacks (host ++ b':' ∷ port) c (All-append _ host (b':' ∷ port) h (λ e. ne (sym e), p))

contains-head : (d : ℕ) (s : Bytes) (c : ℕ) → contains (d ∷ s) c ≡ false → (d == c) ≡ false
unfolding contains
contains-head d s c h = ground arith

split_at-plain :
    (s host port : Bytes)
    → s ≢ []
    → contains host b':' ≡ false
    → contains s b'[' ≡ false
    → contains s b']' ≡ false
    → split_at s host port ≡ some (host, port)
unfolding split_at
split_at-plain [] host port ne a b c = absurd (ne refl)
split_at-plain (d ∷ s) host port ne a b c = rw (contains-head d s b'[' b, a, b, c)

-- Without a colon there is no port.
pub split_host_port-none : (s : Bytes) → Lacks b':' s → split_host_port s ≡ none
unfolding split_host_port
split_host_port-none s h = rw (split_host_port, cut_last-Lacks s b':' h)

bracketed-plain :
    (host port : Bytes)
    → Lacks b'[' host
    → Lacks b'[' port
    → Lacks b']' port
    → bracketed host (b':' ∷ port) port ≡ some (host, port)
unfolding bracketed
bracketed-plain host port a q r = rw (
  ==_self (suc (length port)),
  contains-Lacks host b'[' a,
  contains-Lacks (b':' ∷ port) b'[' (omega arith, q),
  contains-Lacks (b':' ∷ port) b']' (omega arith, r),
)

split_at-bracketed :
    (host port front : Bytes)
    → Lacks b'[' host
    → Lacks b']' host
    → Lacks b'[' port
    → Lacks b']' port
    → split_at (b'[' ∷ (host ++ (b']' ∷ b':' ∷ port))) front port ≡ some (host, port)
unfolding split_at
split_at-bracketed host port front a b q r =
    rw (cut-Lacks host (b':' ∷ port) b']' b) (bracketed-plain host port a q r)

split_host_port-some :
    (s host port front : Bytes)
    → cut_last s b':' ≡ some (front, port)
    → split_at s front port ≡ some (host, port)
    → split_host_port s ≡ some (host, port)
unfolding split_host_port
split_host_port-some s host port front e h = rw (split_host_port, e) h

ne-nil : (a : Bytes) (c : ℕ) (b : Bytes) → a ++ c ∷ b ≢ []
ne-nil [] c b e = cc
ne-nil (x ∷ a) c b e = cc

-- A joined host and port come apart again, an IPv6 host, with its colons, included.
pub split_host_port-join :
    (host port : Bytes)
    → Lacks b'[' host
    → Lacks b']' host
    → IsPlain port
    → split_host_port (join_host_port host port) ≡ some (host, port)
unfolding join_host_port
split_host_port-join host port a b (p, q, r) = elim (Bool-cases (contains host b':')) [
  | inl six ↦ rw six (
      split_host_port-some _ host port (b'[' ∷ (host ++ b']' ∷ []))
        (ap (λ t. cut_last (b'[' ∷ t) b':') (sym (append_assoc host (b']' ∷ []) (b':' ∷ port)))
          ∙ cut_last-append (b'[' ∷ (host ++ b']' ∷ [])) port b':' p)
        (split_at-bracketed host port _ a b q r))
  | inr plain ↦ rw plain (
      split_host_port-some _ host port host (cut_last-append host port b':' p) (
        split_at-plain _ host port (ne-nil host b':' port) plain
          (contains-plain host port b'[' (omega arith) a q)
          (contains-plain host port b']' (omega arith) b r)))
]

-- A property of every byte of the parts, of the colon and of the brackets holds of the joined text.
pub join_host_port-All :
    (P : ℕ → Type 0) (host port : Bytes)
    → All P host
    → All P port
    → P b':'
    → P b'['
    → P b']'
    → All P (join_host_port host port)
unfolding join_host_port
join_host_port-All P host port h p colon open_ close = elim (Bool-cases (contains host b':')) [
  | inl six ↦ rw six (open_, All-append P host (b']' ∷ b':' ∷ port) h (close, (colon, p)))
  | inr plain ↦ rw plain (All-append P host (b':' ∷ port) h (colon, p))
]

pub join_host_port-ne-nil : (host port : Bytes) → join_host_port host port ≢ []
unfolding join_host_port
join_host_port-ne-nil host port = elim (Bool-cases (contains host b':')) [
  | inl six ↦ rw six (λ e. cc)
  | inr plain ↦ rw plain (ne-nil host b':' port)
]
