-- ===== src/Resolver/Spec.antt =====
-- What `Resolve` (resolver.go) promises to its callers: no cache, no lookups and no table, but what has
-- been learned of each name, and the one answer of each caller.
pub mod Shows
pub mod Refines
use vpnproxy.Base.{ℕ, List, [], ◌∷◌, Option, none, some, ◌≡◌, ◌⊎◌, Bytes, Memᴰ}
use vpnproxy.Resolver.Lookup.{LookupError, context_ended}
use vpnproxy.Resolver.Shared.{Found, got, missed, Reply, resolved, failed, put}

-- The results of all lookups so far, with the names that they were for, and the answers given.
pub record Spec : Type 0 where
  pub learned : List (Bytes × Found)
  pub answer : ℕ → Option Reply

abbrev pub nothing_yet : Spec
nothing_yet = record { learned = []; answer = λ i. none }

-- The answers that are right for a name: an address that was learned for it, an error with which a
-- lookup for it failed, or the caller's own time being over.
abbrev pub IsRight : List (Bytes × Found) → Bytes → Reply → Type 0
IsRight learned key (resolved ip) = (ttl : ℕ) × Memᴰ (key, got ip ttl) learned
IsRight learned key (failed e) = (e ≡ context_ended) ⊎ Memᴰ (key, missed e) learned

module _ (key : ℕ → Bytes) where
  -- Something is learned, or one caller that has no answer gets a right one.
  pub data SpecStep (a : Spec) : Spec → Type 0 where
    learns : (k : Bytes) (r : Found) → SpecStep a (record a { learned = (k, r) ∷ a.learned })
    answers :
        (i : ℕ) (reply : Reply)
        → a.answer i ≡ none
        → IsRight a.learned (key i) reply
        → SpecStep a (record a { answer = put i (some reply) a.answer })

  pub data SpecReach (a : Spec) : Spec → Type 0 where
    stays : SpecReach a a
    goes_on : {b c : Spec} → SpecReach a b → SpecStep b c → SpecReach a c
