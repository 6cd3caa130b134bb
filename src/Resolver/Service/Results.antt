-- ===== src/Resolver/Service/Results.antt =====
-- Where the results in the heap of lookups come from (resolver.go).
use mathlib.Core.Path.{subst}
use vpnproxy.Base.{some_same, ℕ, Option, none, some, ◌≡◌, inl, inr, refl, sym, ◌∙◌, arith, Bytes}
use vpnproxy.Go.Duration.{Duration}
use vpnproxy.Resolver.Ip.{Ip}
use vpnproxy.Resolver.Query.{Dns}
use vpnproxy.Resolver.Lookup.{Config, Lookup, found, lost, panicked, World, lookup}
use vpnproxy.Resolver.Lookup.Safe.{IsResolved, lookup-IsResolved}
use vpnproxy.Resolver.Literal.{to_lower}
use vpnproxy.Resolver.Shared.{
  Entry, Found, got, running, landed, closed, Status, Call, State, put, set_status, join, land,
  Step, checks, joins, lands, closes, resolved, replied, wakes, gives_up, Reach, here, next_step,
  initial,
}
use vpnproxy.Resolver.Shared.Keys.{put_cases}
use vpnproxy.Resolver.Shared.Inv.{Calls, HasResult}
use vpnproxy.Resolver.Shared.Steps.{replied-Gave}
use vpnproxy.Resolver.Service.{result, keys, Each, LooksUp}

result-got :
    (l : Lookup) (ip : Bytes) (ttl : Duration) → result l ≡ some (got ip ttl) → l ≡ found ip ttl
unfolding result
result-got (found ip ttl) ip' ttl' h = ground arith
result-got (lost e) ip' ttl' h = cc
result-got panicked ip' ttl' h = cc

-- A status has at most one result.
pub result_same : (st : Status) (r q : Found) → HasResult st r → HasResult st q → r ≡ q
result_same st r q (inl e) (inl f) = cc
result_same st r q (inl e) (inr f) = absurd (cc (sym e ∙ f))
result_same st r q (inr e) (inl f) = absurd (cc (sym e ∙ f))
result_same st r q (inr e) (inr f) = cc

module _ (unicode_lower : Bytes → Bytes) (show_ip : Ip → Bytes) (dns : Dns) (cfg : Config)
    (IsPossible : World → Type 0) where
  -- A lookup in a possible world, for this host, had this result.
  abbrev pub Returned : Bytes → Found → Type 0
  Returned host r =
      (world : World) × IsPossible world × (result (lookup show_ip dns cfg world host) ≡ some r)

  pub record CallOk (c : Call) : Type 0 where
    pub lowered : c.key ≡ to_lower unicode_lower c.host
    pub returned : (r : Found) → HasResult c.status r → Returned c.host r

  abbrev pub CallsOk : Calls → Type 0
  CallsOk calls = (id : ℕ) (c : Call) → calls id ≡ some c → CallOk c

  put-CallsOk :
      (calls : Calls) (id : ℕ) (c : Call)
      → CallsOk calls
      → CallOk c
      → CallsOk (put id (some c) calls)
  put-CallsOk calls id c old new j d e = elim (put_cases id j (some c) calls) [
    | inl (same, here_) ↦ subst CallOk (some_same (sym here_ ∙ e)) new
    | inr (other, there) ↦ old j d (sym there ∙ e)
  ]

  -- A call whose status goes on.
  set_status-CallsOk :
      (s : State) (id : ℕ) (c : Call) (st : Status)
      → CallsOk s.call
      → s.call id ≡ some c
      → ((r : Found) → HasResult st r → Returned c.host r)
      → CallsOk (set_status s id c st)
  set_status-CallsOk s id c st v made new =
      put-CallsOk s.call id (record c { status = st }) v
        (record { lowered = (v id c made).lowered; returned = new })

  module _ (host : ℕ → Bytes) where
    abbrev key : ℕ → Bytes
    key = keys unicode_lower host

    join-CallsOk :
        (s : State) (i : ℕ) (cached : Option Entry) (o : Option ℕ)
        → CallsOk s.call
        → CallsOk (join s i (key i) (host i) cached o).call
    unfolding join
    join-CallsOk s i cached (some id) v = v
    join-CallsOk s i cached none v =
        put-CallsOk s.call s.next (record { key = key i; host = host i; status = running }) v
          (record {
            lowered = refl;
            returned = λ r h. elim h [ inl e ↦ absurd (cc e) | inr e ↦ absurd (cc e) ];
          })

    Step-CallsOk :
        {s t : State} (st : Step key host s t)
        → LooksUp key host show_ip dns cfg IsPossible s t st
        → CallsOk s.call
        → CallsOk t.call
    unfolding land
    Step-CallsOk (checks i now at_i) l v = v
    Step-CallsOk {s} (joins i o at_i) l v = join-CallsOk s i o (s.inflight (key i)) v
    Step-CallsOk {s} (lands id now c r made runs) l v =
        set_status-CallsOk s id c (landed r) v made
          (λ q h. subst (Returned c.host) (result_same (landed r) r q (inl refl) h) l)
    Step-CallsOk {s} (closes id c r made done) l v =
        set_status-CallsOk s id c (closed r) v made (λ q h.
          subst (Returned c.host) (result_same (closed r) r q (inr refl) h)
            ((v id c made).returned r (inl done)))
    Step-CallsOk (wakes i id o c r at_i made done) l v = v
    Step-CallsOk (gives_up i id o at_i) l v = v

    Reach-CallsOk :
        {s : State} (r : Reach key host initial s)
        → Each key host (LooksUp key host show_ip dns cfg IsPossible) r
        → CallsOk s.call
    Reach-CallsOk here ok = λ id c e. absurd (cc e)
    Reach-CallsOk (next_step r st) (ok, l) = Step-CallsOk st l (Reach-CallsOk r ok)

    -- The address is one that a lookup through the tunnel gave for a name that is the caller's own,
    -- but for the case of its letters.
    pub record IsLookedUp (i : ℕ) (ip : Bytes) : Type 0 where
      pub name : Bytes
      pub same_name : to_lower unicode_lower name ≡ to_lower unicode_lower (host i)
      pub world : World
      pub is_possible : IsPossible world
      pub ttl : Duration
      pub is_resolved : IsResolved show_ip dns cfg world name ip ttl

    -- However the goroutines interleave, where each lookup lands what `lookup` returns, an address
    -- with which a caller is answered, fresh, shared or expired, is the first answer that some lookup
    -- through the tunnel had for a name that differs from the caller's in the case of letters at most,
    -- and it is no loopback address.
    pub replied-IsLookedUp :
        {s : State} (r : Reach key host initial s)
        → Each key host (LooksUp key host show_ip dns cfg IsPossible) r
        → (i : ℕ) (ip : Bytes) → s.phase i ≡ replied (resolved ip)
        → IsLookedUp i ip
    replied-IsLookedUp r ok i ip at_i =
        let w = replied-Gave key host r i ip at_i in
        let c = Reach-CallsOk r ok w.id w.c w.made in
        let (world, possible, e) = c.returned (got ip w.ttl) w.result in
        record {
          name = w.c.host;
          same_name = sym c.lowered ∙ w.same_key;
          world = world;
          is_possible = possible;
          ttl = w.ttl;
          is_resolved =
              lookup-IsResolved show_ip dns cfg world w.c.host ip w.ttl (result-got _ ip w.ttl e);
        }
