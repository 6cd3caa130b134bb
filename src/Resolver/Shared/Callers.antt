-- ===== src/Resolver/Shared/Callers.antt =====
-- The steps of a caller keep the invariant: it reads the cache, and joins or starts a lookup.
use vpnproxy.Base.{
  ℕ, Bool, true, false, Option, none, some, ◌≡◌, ◌≢◌, inl, inr, refl, sym, ap, ◌∙◌, arith, Bytes,
  ltb, if◌then◌else◌,
}
use vpnproxy.Go.Duration.{Duration}
use vpnproxy.Resolver.Shared.{
  Entry, Found, got, missed, running, Call, resolved, Phase, uncached, waiting, replied, State, put,
  check_cache, conclude, join,
}
use vpnproxy.Resolver.Shared.Keys.{put_cases, put_self, put_other, put_key_self, put_key_cases}
use vpnproxy.Resolver.Shared.Inv.{
  Calls, Gave, EntryOk, ReplyOk, PhaseOk, EntryOk-mono, PhaseOk-mono, Extends-fresh, Inv,
}

pub check_cache-PhaseOk :
    (calls : Calls) (k : Bytes) (now : ℕ) (o : Option Entry)
    → EntryOk calls k o
    → PhaseOk calls k (check_cache now o)
unfolding check_cache
check_cache-PhaseOk calls k now none h = tt
check_cache-PhaseOk calls k now (some e) h = by_test (ltb now e.expiry)
  where
    by_test :
        (b : Bool) → PhaseOk calls k (if b then replied (resolved e.ip) else uncached (some e))
    by_test true = h
    by_test false = h

pub conclude-ReplyOk :
    (calls : Calls) (k : Bytes) (o : Option Entry) (r : Found)
    → EntryOk calls k o
    → ((ip : Bytes) (ttl : Duration) → r ≡ got ip ttl → Gave calls k ip)
    → ReplyOk calls k (conclude o r)
unfolding conclude
conclude-ReplyOk calls k none (got ip ttl) h g = g ip ttl refl
conclude-ReplyOk calls k (some e) (got ip ttl) h g = g ip ttl refl
conclude-ReplyOk calls k none (missed e) h g = tt
conclude-ReplyOk calls k (some old) (missed e) h g = h

module _ (key host : ℕ → Bytes) where
  -- One caller goes on, and nothing else changes.
  pub put_phase-Inv :
      (s : State) (i : ℕ) (p : Phase)
      → Inv key s
      → PhaseOk s.call (key i) p
      → Inv key (record s { phase = put i p s.phase })
  put_phase-Inv s i p v h = record {
    flying = v.flying;
    listed = v.listed;
    fresh = v.fresh;
    cached = v.cached;
    phases = λ j. elim (put_cases i j p s.phase) [
      | inl (same, at_i) ↦ rw (at_i, same) h
      | inr (other, at_j) ↦ rw at_j (v.phases j)
    ];
  }

  pub join_known-Inv :
      (s : State) (i id : ℕ) (o : Option Entry)
      → Inv key s
      → s.phase i ≡ uncached o
      → s.inflight (key i) ≡ some id
      → Inv key (join s i (key i) (host i) o (some id))
  unfolding join
  join_known-Inv s i id o v at_i e =
      let (c, made, same, runs) = v.flying (key i) id e in
      put_phase-Inv s i (waiting o id) v ((rw at_i at (v.phases i)), (c, made, same))

  pub old_id : (s : State) → Inv key s → (id : ℕ) (d : Call) → s.call id ≡ some d → id ≢ s.next
  old_id s v id d made same = cc (sym made ∙ ap s.call same ∙ v.fresh s.next (omega arith))

  pub join_new-Inv :
      (s : State) (i : ℕ) (o : Option Entry)
      → Inv key s
      → s.phase i ≡ uncached o
      → s.inflight (key i) ≡ none
      → Inv key (join s i (key i) (host i) o none)
  unfolding join
  join_new-Inv s i o v at_i e =
      let c : Call = record { key = key i; host = host i; status = running } in
      let ext = Extends-fresh s.call s.next c (v.fresh s.next (omega arith)) in
      record {
        flying = λ k id h. elim (put_key_cases (key i) k (some s.next) s.inflight) [
          | inl (same, now) ↦
              let eq : s.next ≡ id = ground (arith, sym now ∙ h) in
              (c, rw (← eq) (put_self s.next (some c) s.call), sym same, refl)
          | inr (other, then_) ↦
              let (d, made, same, runs) = v.flying k id (sym then_ ∙ h) in
              (d, put_other s.next id (some c) s.call (old_id s v id d made) ∙ made, same, runs)
        ];
        listed = λ id d h runs. elim (put_cases s.next id (some c) s.call) [
          | inl (same, now) ↦
              let eq : c ≡ d = ground (arith, sym now ∙ h) in
              let dk : key i ≡ d.key = ap (λ (x : Call). x.key) eq in
              rw (← dk, same) (put_key_self (key i) (some s.next) s.inflight)
          | inr (other, then_) ↦
              let old = v.listed id d (sym then_ ∙ h) runs in
              elim (put_key_cases (key i) d.key (some s.next) s.inflight) [
                | inl (same, now) ↦ absurd (cc (sym old ∙ ap s.inflight same ∙ e))
                | inr (ne, there) ↦ there ∙ old
              ]
        ];
        fresh = λ id h. elim (put_cases s.next id (some c) s.call) [
          | inl (same, now) ↦ absurd (omega arith)
          | inr (other, then_) ↦ then_ ∙ v.fresh id (omega arith)
        ];
        cached = λ k. EntryOk-mono s.call _ ext k (s.cache k) (v.cached k);
        phases = λ j. elim (put_cases i j (waiting o s.next) s.phase) [
          | inl (same, now) ↦
              rw (now, same)
                (
                  EntryOk-mono s.call _ ext (key i) o (rw at_i at (v.phases i)),
                  (c, put_self s.next (some c) s.call, refl),
                )
          | inr (other, then_) ↦
              rw then_ (PhaseOk-mono s.call _ ext (key j) (s.phase j) (v.phases j))
        ];
      }
