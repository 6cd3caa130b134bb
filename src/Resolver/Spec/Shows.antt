-- ===== src/Resolver/Spec/Shows.antt =====
-- How a state of the shared resolver and one of its specification correspond, and the right answers.
use mathlib.Core.Path.{subst}
use vpnproxy.Base.{
  some_same, ℕ, List, Option, none, some, ◌≡◌, ◌⊎◌, inl, inr, sym, ◌∙◌, arith, Bytes, Memᴰ,
}
use vpnproxy.Resolver.Lookup.{context_ended}
use vpnproxy.Resolver.Shared.{
  Entry, Found, got, missed, Call, Reply, resolved, Phase, starting, uncached, waiting, replied,
  State, put, conclude,
}
use vpnproxy.Resolver.Shared.Keys.{put_cases}
use vpnproxy.Resolver.Shared.Inv.{Calls, HasResult, Gave, EntryOk, Extends}
use vpnproxy.Resolver.Spec.{Spec, IsRight}

-- What the caller of `Resolve` sees.
abbrev pub seen : Phase → Option Reply
seen (replied r) = some r
seen starting = none
seen (uncached cached) = none
seen (waiting cached id) = none

-- Everything that a lookup in the heap found is learned.
abbrev pub Covers : List (Bytes × Found) → Calls → Type 0
Covers learned calls =
    (id : ℕ) (c : Call) (r : Found)
    → calls id ≡ some c
    → HasResult c.status r
    → Memᴰ (c.key, r) learned

-- A finished lookup for this key in the heap.
abbrev pub IsHeard : Calls → Bytes → Found → Type 0
IsHeard calls k r = (id : ℕ) × (c : Call) × (calls id ≡ some c) × (c.key ≡ k) × HasResult c.status r

-- The specification's state shows what the callers see, and has learned what the lookups found.
pub record Shows (s : State) (a : Spec) : Type 0 where
  pub answer : (i : ℕ) → a.answer i ≡ seen (s.phase i)
  pub learned : Covers a.learned s.call
  pub heard : (k : Bytes) (r : Found) → Memᴰ (k, r) a.learned → IsHeard s.call k r

pub IsHeard-mono :
    (f g : Calls) → Extends f g → (k : Bytes) (r : Found) → IsHeard f k r → IsHeard g k r
IsHeard-mono f g ext k r (id, c, made, same, has) =
    let (d, made', same', keep) = ext id c made in (id, d, made', same' ∙ same, keep r has)

pub Gave-IsRight :
    (l : List (Bytes × Found)) (calls : Calls) (k ip : Bytes)
    → Covers l calls
    → Gave calls k ip
    → IsRight l k (resolved ip)
Gave-IsRight l calls k ip cover w =
    (w.ttl, subst (λ x. Memᴰ (x, got ip w.ttl) l) w.same_key (cover w.id w.c _ w.made w.result))

pub put-Covers :
    (l : List (Bytes × Found)) (calls : Calls) (id : ℕ) (c : Call)
    → Covers l calls
    → ((r : Found) → HasResult c.status r → Memᴰ (c.key, r) l)
    → Covers l (put id (some c) calls)
put-Covers l calls id c cover new j d r e h = elim (put_cases id j (some c) calls) [
  | inl (same, here_) ↦
      let eq : c ≡ d = some_same (sym here_ ∙ e) in
      subst (λ (x : Call). Memᴰ (x.key, r) l) eq
        (new r (subst (λ (x : Call). HasResult x.status r) (sym eq) h))
  | inr (other, there) ↦ cover j d r (sym there ∙ e) h
]

-- The fallback on the expired entry, and the result of a lookup, are right answers.
pub conclude-IsRight :
    (l : List (Bytes × Found)) (calls : Calls) (k : Bytes) (o : Option Entry) (r : Found)
    → Covers l calls
    → EntryOk calls k o
    → (r ≡ missed context_ended) ⊎ Memᴰ (k, r) l
    → IsRight l k (conclude o r)
unfolding conclude
conclude-IsRight l calls k o (got ip ttl) cover old (inl e) = absurd (cc e)
conclude-IsRight l calls k none (got ip ttl) cover old (inr m) = (ttl, m)
conclude-IsRight l calls k (some e) (got ip ttl) cover old (inr m) = (ttl, m)
conclude-IsRight l calls k (some e) (missed err) cover old came =
    Gave-IsRight l calls k e.ip cover old
conclude-IsRight l calls k none (missed err) cover old (inl e) = inl (ground arith)
conclude-IsRight l calls k none (missed err) cover old (inr m) = inr m
