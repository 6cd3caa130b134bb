-- ===== src/Resolver/Service/Answered.antt =====
-- How a caller of `Resolve` can get its answer (resolver.go).
use vpnproxy.Base.{ℕ, Option, none, some, ◌≡◌, ◌≢◌, inl, inr, refl, Bytes, Bool-cases, ltb}
use vpnproxy.Resolver.Ip.{Ip}
use vpnproxy.Resolver.Query.{Dns}
use vpnproxy.Resolver.Lookup.{Config, Lookup, found, lost, panicked, World, lookup}
use vpnproxy.Resolver.Lookup.Safe.{lookup-ne-panicked}
use vpnproxy.Resolver.Shared.{
  Entry, Found, got, missed, running, landed, closed, Status, Call, Reply, resolved, Phase,
  starting, uncached, waiting, replied, State, put, check_cache, conclude, set_status, land, join,
  Step, checks, joins, lands, closes, wakes, Reach, here, next_step, initial,
}
use vpnproxy.Resolver.Shared.Keys.{put_self}
use vpnproxy.Resolver.Shared.Inv.{Inv}
use vpnproxy.Resolver.Shared.Steps.{Step-Inv, Reach-Inv}
use vpnproxy.Resolver.Service.{result, Each, IsPatient, LooksUp}

result-ne-none : (l : Lookup) → l ≢ panicked → (r : Found) × (result l ≡ some r)
unfolding result
result-ne-none (found ip ttl) h = (got ip ttl, refl)
result-ne-none (lost e) h = (missed e, refl)
result-ne-none panicked h = absurd (h refl)

module _ (show_ip : Ip → Bytes) (dns : Dns) (cfg : Config) (world : World)
    (key host : ℕ → Bytes) where
  -- A run on which the caller gets an answer: every lookup lands what `lookup` returns in this world,
  -- and no caller gives up.
  abbrev pub CanBeAnswered : ℕ → State → Type 0
  CanBeAnswered i s =
      (t : State) × (reply : Reply) × (r : Reach key host s t) × Each key host
        (LooksUp key host show_ip dns cfg (λ w. w ≡ world)) r
      × Each key host (IsPatient key host) r
      × (t.phase i ≡ replied reply)

  prepend : {s t u : State} (st : Step key host s t) (r : Reach key host t u) → Reach key host s u
  prepend st here = next_step here st
  prepend st (next_step r last) = next_step (prepend st r) last

  prepend-Each :
      (P : (s t : State) → Step key host s t → Type 0)
      → {s t u : State} (st : Step key host s t) (r : Reach key host t u) → P s t st
      → Each key host P r
      → Each key host P (prepend st r)
  unfolding prepend
  prepend-Each P st here p ok = (tt, p)
  prepend-Each P st (next_step r last) p (ok, q) = (prepend-Each P st r p ok, q)

  CanBeAnswered-before :
      (i : ℕ) {s t : State} (st : Step key host s t)
      → LooksUp key host show_ip dns cfg (λ w. w ≡ world) s t st
      → IsPatient key host s t st
      → CanBeAnswered i t
      → CanBeAnswered i s
  CanBeAnswered-before i st looks waits (u, reply, r, looked, waited, e) = (
    u,
    reply,
    prepend st r,
    prepend-Each _ st r looks looked,
    prepend-Each _ st r waits waited,
    e,
  )

  replied-CanBeAnswered :
      (i : ℕ) (s : State) (r : Reply) → s.phase i ≡ replied r → CanBeAnswered i s
  replied-CanBeAnswered i s r e = (s, r, here, tt, tt, e)

  closed-CanBeAnswered :
      (s : State) (i id : ℕ) (cached : Option Entry) (c : Call) (r : Found)
      → s.phase i ≡ waiting cached id
      → s.call id ≡ some c
      → c.status ≡ closed r
      → CanBeAnswered i s
  closed-CanBeAnswered s i id cached c r at_i made done =
      CanBeAnswered-before i (wakes i id cached c r at_i made done) tt tt (
        replied-CanBeAnswered i _ (conclude cached r)
          (put_self i (replied (conclude cached r)) s.phase))

  landed-CanBeAnswered :
      (s : State) (i id : ℕ) (cached : Option Entry) (c : Call) (r : Found)
      → s.phase i ≡ waiting cached id
      → s.call id ≡ some c
      → c.status ≡ landed r
      → CanBeAnswered i s
  landed-CanBeAnswered s i id cached c r at_i made done =
      let c' : Call = record c { status = closed r } in
      CanBeAnswered-before i (closes id c r made done) tt tt (
        closed-CanBeAnswered (record s { call = set_status s id c (closed r) }) i id cached c' r
          at_i (put_self id (some c') s.call) refl)

  running-CanBeAnswered :
      (s : State) (i id : ℕ) (cached : Option Entry) (c : Call)
      → s.phase i ≡ waiting cached id
      → s.call id ≡ some c
      → c.status ≡ running
      → CanBeAnswered i s
  unfolding land
  running-CanBeAnswered s i id cached c at_i made runs =
      let (r, e) =
        result-ne-none (lookup show_ip dns cfg world c.host)
          (lookup-ne-panicked show_ip dns cfg world c.host) in
      let c' : Call = record c { status = landed r } in
      CanBeAnswered-before i (lands id 0 c r made runs) (world, refl, e) tt
        (landed-CanBeAnswered (land s id c r 0) i id cached c' r at_i (put_self id (some c') s.call)
          refl)

  waiting-CanBeAnswered :
      (s : State) (i id : ℕ) (cached : Option Entry)
      → Inv key s
      → s.phase i ≡ waiting cached id
      → CanBeAnswered i s
  waiting-CanBeAnswered s i id cached v at_i =
      let (old, (c, made, same)) = (rw at_i at (v.phases i)) in by_status c made c.status refl
    where
      by_status :
          (c : Call) → s.call id ≡ some c → (st : Status) → c.status ≡ st → CanBeAnswered i s
      by_status c made running h = running-CanBeAnswered s i id cached c at_i made h
      by_status c made (landed r) h = landed-CanBeAnswered s i id cached c r at_i made h
      by_status c made (closed r) h = closed-CanBeAnswered s i id cached c r at_i made h

  join-waiting :
      (s : State) (i : ℕ) (cached : Option Entry) (o : Option ℕ)
      → (id : ℕ) × ((join s i (key i) (host i) cached o).phase i ≡ waiting cached id)
  unfolding join
  join-waiting s i cached (some id) = (id, put_self i (waiting cached id) s.phase)
  join-waiting s i cached none = (s.next, put_self i (waiting cached s.next) s.phase)

  uncached-CanBeAnswered :
      (s : State) (i : ℕ) (cached : Option Entry)
      → Inv key s
      → s.phase i ≡ uncached cached
      → CanBeAnswered i s
  uncached-CanBeAnswered s i cached v at_i =
      let st : Step key host s (join s i (key i) (host i) cached (s.inflight (key i))) =
        joins i cached at_i in
      let (id, waits) = join-waiting s i cached (s.inflight (key i)) in
      CanBeAnswered-before i st tt tt
        (waiting-CanBeAnswered _ i id cached (Step-Inv key host st v) waits)

  starting-CanBeAnswered :
      (s : State) (i : ℕ) → Inv key s → s.phase i ≡ starting → CanBeAnswered i s
  unfolding check_cache
  starting-CanBeAnswered s i v at_i =
      let t : State = record s { phase = put i (check_cache 0 (s.cache (key i))) s.phase } in
      let st : Step key host s t = checks i 0 at_i in
      CanBeAnswered-before i st tt tt
        (by_entry (s.cache (key i)) t (Step-Inv key host st v) (put_self i _ s.phase))
    where
      by_entry :
          (o : Option Entry) (t : State)
          → Inv key t
          → t.phase i ≡ check_cache 0 o
          → CanBeAnswered i t
      by_entry none t w e = uncached-CanBeAnswered t i none w e
      by_entry (some old) t w e = elim (Bool-cases (ltb 0 old.expiry)) [
        | inl valid ↦ replied-CanBeAnswered i t (resolved old.ip) (rw valid at e)
        | inr over ↦ uncached-CanBeAnswered t i (some old) w (rw over at e)
      ]

  -- No caller is ever stuck: from every state that the goroutines can reach, whatever the servers and
  -- the network do in the lookups to come (the world), there is a way on in which the caller gets an
  -- answer, though neither it nor any other caller gives up, and every lookup lands what `lookup`
  -- returns in that world.
  pub Reach-CanBeAnswered : {s : State} → Reach key host initial s → (i : ℕ) → CanBeAnswered i s
  Reach-CanBeAnswered {s} r i = by_phase (s.phase i) refl
    where
      by_phase : (p : Phase) → s.phase i ≡ p → CanBeAnswered i s
      by_phase starting h = starting-CanBeAnswered s i (Reach-Inv key host r) h
      by_phase (uncached o) h = uncached-CanBeAnswered s i o (Reach-Inv key host r) h
      by_phase (waiting o id) h = waiting-CanBeAnswered s i id o (Reach-Inv key host r) h
      by_phase (replied reply) h = replied-CanBeAnswered i s reply h
