-- ===== src/Resolver/Shared/Inv.antt =====
-- The invariant of the shared state, and how its parts follow the heap of lookups.
use vpnproxy.Base.{ℕ, ◌≤◌, Option, none, some, ◌≡◌, ◌⊎◌, inl, inr, refl, ap, ◌∙◌, arith, Bytes}
use vpnproxy.Go.Duration.{Duration}
use vpnproxy.Resolver.Shared.{
  Entry, Found, got, Status, running, landed, closed, Call, Reply, resolved, failed, Phase,
  starting, uncached, waiting, replied, State, put, initial,
}
use vpnproxy.Resolver.Shared.Keys.{put_cases}

abbrev pub Calls : Type 0
Calls = ℕ → Option Call

abbrev pub HasResult : Status → Found → Type 0
HasResult st r = (st ≡ landed r) ⊎ (st ≡ closed r)

-- Some lookup for this key gave this address.
pub record Gave (calls : Calls) (k : Bytes) (ip : Bytes) : Type 0 where
  pub id : ℕ
  pub c : Call
  pub ttl : Duration
  pub made : calls id ≡ some c
  pub same_key : c.key ≡ k
  pub result : HasResult c.status (got ip ttl)

abbrev pub EntryOk : Calls → Bytes → Option Entry → Type 0
EntryOk calls k none = Unit
EntryOk calls k (some e) = Gave calls k e.ip

abbrev pub ReplyOk : Calls → Bytes → Reply → Type 0
ReplyOk calls k (resolved ip) = Gave calls k ip
ReplyOk calls k (failed e) = Unit

abbrev pub PhaseOk : Calls → Bytes → Phase → Type 0
PhaseOk calls k starting = Unit
PhaseOk calls k (uncached o) = EntryOk calls k o
PhaseOk calls k (waiting o id) =
    EntryOk calls k o × ((c : Call) × (calls id ≡ some c) × (c.key ≡ k))
PhaseOk calls k (replied r) = ReplyOk calls k r

-- The heap grows, and its calls get no other key and lose no result.
abbrev pub Extends : Calls → Calls → Type 0
Extends f g =
    (id : ℕ) (c : Call)
    → f id ≡ some c
    → (c' : Call) × (g id ≡ some c')
      × (c'.key ≡ c.key)
      × ((r : Found) → HasResult c.status r → HasResult c'.status r)

module _ (f g : Calls) (ext : Extends f g) (k : Bytes) where
  pub Gave-mono : (ip : Bytes) → Gave f k ip → Gave g k ip
  Gave-mono ip w =
      let (c', made, same, keep) = ext w.id w.c w.made in
      record {
        id = w.id;
        c = c';
        ttl = w.ttl;
        made = made;
        same_key = same ∙ w.same_key;
        result = keep (got ip w.ttl) w.result;
      }

  pub EntryOk-mono : (o : Option Entry) → EntryOk f k o → EntryOk g k o
  EntryOk-mono none h = tt
  EntryOk-mono (some e) h = Gave-mono e.ip h

  pub PhaseOk-mono : (p : Phase) → PhaseOk f k p → PhaseOk g k p
  PhaseOk-mono starting h = tt
  PhaseOk-mono (uncached o) h = EntryOk-mono o h
  PhaseOk-mono (waiting o id) (h, (c, made, same)) =
      let (c', made', same', keep) = ext id c made in (EntryOk-mono o h, (c', made', same' ∙ same))
  PhaseOk-mono (replied (resolved ip)) h = Gave-mono ip h
  PhaseOk-mono (replied (failed e)) h = tt

-- A new call at a free place, or a call whose status goes on.
pub Extends-fresh : (f : Calls) (id : ℕ) (c : Call) → f id ≡ none → Extends f (put id (some c) f)
Extends-fresh f id c free j d e = elim (put_cases id j (some c) f) [
  | inl (same, here) ↦ absurd (cc (ap f same))
  | inr (other, there) ↦ (d, there ∙ e, refl, (λ r h. h))
]

pub Extends-put :
    (f : Calls) (id : ℕ) (c c' : Call)
    → f id ≡ some c
    → c'.key ≡ c.key
    → ((r : Found) → HasResult c.status r → HasResult c'.status r)
    → Extends f (put id (some c') f)
Extends-put f id c c' made same keep j d e = elim (put_cases id j (some c') f) [
  | inl (eq, here) ↦
      let old : c ≡ d = ground (arith, ap f eq) in
      (c', here, rw old at same, λ r h. keep r (rw (← old) at h))
  | inr (other, there) ↦ (d, there ∙ e, refl, (λ r h. h))
]

pub record Inv (key : ℕ → Bytes) (s : State) : Type 0 where
  pub flying :
      (k : Bytes) (id : ℕ)
      → s.inflight k ≡ some id
      → (c : Call) × (s.call id ≡ some c) × (c.key ≡ k) × (c.status ≡ running)
  pub listed :
      (id : ℕ) (c : Call) → s.call id ≡ some c → c.status ≡ running → s.inflight c.key ≡ some id
  pub fresh : (id : ℕ) → s.next ≤ id → s.call id ≡ none
  pub cached : (k : Bytes) → EntryOk s.call k (s.cache k)
  pub phases : (i : ℕ) → PhaseOk s.call (key i) (s.phase i)

pub initial-Inv : (key : ℕ → Bytes) → Inv key initial
initial-Inv key = record {
  flying = λ k id e. absurd (cc e);
  listed = λ id c e h. absurd (cc e);
  fresh = λ id h. refl;
  cached = λ k. tt;
  phases = λ i. tt;
}
