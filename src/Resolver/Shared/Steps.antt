-- ===== src/Resolver/Shared/Steps.antt =====
-- The steps of the goroutines, and the invariant of the shared state (resolver.go).
use vpnproxy.Base.{some_same, ℕ, Option, some, ◌≡◌, inl, inr, sym, ap, ◌∙◌, Bytes, Option-cases}
use vpnproxy.Resolver.Lookup.{context_ended}
use vpnproxy.Resolver.Shared.{
  Entry, Found, missed, running, closed, Call, resolved, waiting, replied, State, conclude, Step,
  checks, joins, lands, closes, wakes, gives_up, Reach, here, next_step, initial,
}
use vpnproxy.Resolver.Shared.Inv.{Gave, ReplyOk, PhaseOk, Inv, initial-Inv}
use vpnproxy.Resolver.Shared.Callers.{
  check_cache-PhaseOk, conclude-ReplyOk, put_phase-Inv, join_known-Inv, join_new-Inv,
}
use vpnproxy.Resolver.Shared.Lands.{land-Inv, close-Inv}

module _ (key host : ℕ → Bytes) where
  wake-ReplyOk :
      (s : State) (i id : ℕ) (o : Option Entry) (c : Call) (r : Found)
      → PhaseOk s.call (key i) (waiting o id)
      → s.call id ≡ some c
      → c.status ≡ closed r
      → ReplyOk s.call (key i) (conclude o r)
  wake-ReplyOk s i id o c r (old, (d, made', same)) made done =
      let dc : d ≡ c = some_same (sym made' ∙ made) in
      conclude-ReplyOk s.call (key i) o r old (λ ip ttl e. record {
        id = id;
        c = c;
        ttl = ttl;
        made = made;
        same_key = rw dc at same;
        result = inr (done ∙ ap closed e);
      })

  pub Step-Inv : {s t : State} → Step key host s t → Inv key s → Inv key t
  Step-Inv {s} (checks i now at_i) v =
      put_phase-Inv key host s i _ v
        (check_cache-PhaseOk s.call (key i) now (s.cache (key i)) (v.cached (key i)))
  Step-Inv {s} (joins i o at_i) v = elim (Option-cases (s.inflight (key i))) [
    | inl none_ ↦ rw none_ (join_new-Inv key host s i o v at_i none_)
    | inr (id, known) ↦ rw known (join_known-Inv key host s i id o v at_i known)
  ]
  Step-Inv {s} (lands id now c r made runs) v = land-Inv key s id now c r v made runs
  Step-Inv {s} (closes id c r made done) v = close-Inv key s id c r v made done
  Step-Inv {s} (wakes i id o c r at_i made done) v =
      put_phase-Inv key host s i _ v (wake-ReplyOk s i id o c r (rw at_i at (v.phases i)) made done)
  Step-Inv {s} (gives_up i id o at_i) v =
      let (old, call) = (rw at_i at (v.phases i)) in
      put_phase-Inv key host s i _ v
        (conclude-ReplyOk s.call (key i) o (missed context_ended) old (λ ip ttl e. cc))

  pub Reach-Inv : {s : State} → Reach key host initial s → Inv key s
  Reach-Inv here = initial-Inv key
  Reach-Inv (next_step r st) = Step-Inv st (Reach-Inv r)

  -- However the goroutines interleave, two lookups that run for one name are the same lookup.
  pub single_flight :
      {s : State} (r : Reach key host initial s) (id id' : ℕ) (c c' : Call)
      → s.call id ≡ some c
      → s.call id' ≡ some c'
      → c.status ≡ running
      → c'.status ≡ running
      → c.key ≡ c'.key
      → id ≡ id'
  single_flight {s} r id id' c c' made made' runs runs' same =
      let v = Reach-Inv r in
      some_same (sym (v.listed id c made runs) ∙ ap s.inflight same ∙ v.listed id' c' made' runs')

  -- However the goroutines interleave, an address with which a caller is answered, fresh, shared or
  -- expired, is one that a finished lookup for the caller's own name gave.
  pub replied-Gave :
      {s : State} (r : Reach key host initial s) (i : ℕ) (ip : Bytes)
      → s.phase i ≡ replied (resolved ip)
      → Gave s.call (key i) ip
  replied-Gave {s} r i ip e = rw e at ((Reach-Inv r).phases i)
