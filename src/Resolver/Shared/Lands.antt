-- ===== src/Resolver/Shared/Lands.antt =====
-- The steps of a lookup's goroutine keep the invariant: it lands its result, and wakes its waiters.
use vpnproxy.Base.{
  some_same, ℕ, Option, none, some, ◌≡◌, ◌≢◌, inl, inr, refl, sym, ap, ◌∙◌, arith, Bytes,
}
use vpnproxy.Go.Duration.{Duration, add}
use vpnproxy.Resolver.Shared.{
  Entry, Found, got, missed, running, landed, closed, Call, State, put, fill, set_status, land,
}
use vpnproxy.Resolver.Shared.Keys.{put_cases, put_self, put_other, put_key_cases}
use vpnproxy.Resolver.Shared.Inv.{
  Calls, HasResult, Gave, EntryOk, Extends, EntryOk-mono, PhaseOk-mono, Extends-put, Inv,
}

pub no_result : (c : Call) (r : Found) → c.status ≡ running → HasResult c.status r → ⊥
no_result c r runs (inl e) = cc
no_result c r runs (inr e) = cc

pub landed-closed :
    (c : Call) (r q : Found) → c.status ≡ landed r → HasResult c.status q → HasResult (closed r) q
landed-closed c r q l (inl e) = inr (ground arith)
landed-closed c r q l (inr e) = cc

module _ (key : ℕ → Bytes) where
  pub fill-EntryOk :
      (calls : Calls) (cache : Bytes → Option Entry) (now : ℕ) (k : Bytes) (r : Found)
      → ((ip : Bytes) (ttl : Duration) → r ≡ got ip ttl → Gave calls k ip)
      → ((j : Bytes) → EntryOk calls j (cache j))
      → (j : Bytes) → EntryOk calls j (fill now k r cache j)
  unfolding fill
  fill-EntryOk calls cache now k (missed e) gave h j = h j
  fill-EntryOk calls cache now k (got ip ttl) gave h j =
      elim (put_key_cases k j (some (record { ip = ip; expiry = add now ttl })) cache) [
        | inl (same, here_) ↦ rw (here_, same) (gave ip ttl refl)
        | inr (other, there) ↦ rw there (h j)
      ]

  -- A running call lands: it is the one in flight for its key, and gives its result to the cache.
  pub land-Inv :
      (s : State) (id now : ℕ) (c : Call) (r : Found)
      → Inv key s
      → s.call id ≡ some c
      → c.status ≡ running
      → Inv key (land s id c r now)
  unfolding land
  land-Inv s id now c r v made runs =
      let c' : Call = record c { status = landed r } in
      let calls : Calls = put id (some c') s.call in
      let ext : Extends s.call calls =
        Extends-put s.call id c c' made refl (λ q h. absurd (no_result c q runs h)) in
      let gave = λ (ip : Bytes) (ttl : Duration) (e : r ≡ got ip ttl).
        let w : Gave calls c.key ip = record {
          id = id;
          c = c';
          ttl = ttl;
          made = put_self id (some c') s.call;
          same_key = refl;
          result = inl (ap landed e);
        } in
        w in
      record {
        flying = λ k j h. elim (put_key_cases c.key k none s.inflight) [
          | inl (same, gone) ↦ absurd (cc (sym gone ∙ h))
          | inr (other, there) ↦
              let (d, made', same, run) = v.flying k j (sym there ∙ h) in
              let ne : j ≢ id = λ e. other (
                sym same ∙ ap (λ (x : Call). x.key) (some_same (sym made' ∙ ap s.call e ∙ made))) in
              (d, put_other id j (some c') s.call ne ∙ made', same, run)
        ];
        listed = λ j d h run. elim (put_cases id j (some c') s.call) [
          | inl (same, at_id) ↦
              let eq : c' ≡ d = some_same (sym at_id ∙ h) in
              absurd (cc (ap (λ (x : Call). x.status) eq ∙ run))
          | inr (ne, there) ↦
              let old = v.listed j d (sym there ∙ h) run in
              elim (put_key_cases c.key d.key none s.inflight) [
                | inl (same, gone) ↦
                    absurd (ne (some_same (sym old ∙ ap s.inflight same ∙ v.listed id c made runs)))
                | inr (other, same) ↦ same ∙ old
              ]
        ];
        fresh = λ j h. elim (put_cases id j (some c') s.call) [
          | inl (same, at_id) ↦ absurd (cc (sym made ∙ ap s.call (sym same) ∙ v.fresh j h))
          | inr (ne, there) ↦ there ∙ v.fresh j h
        ];
        cached =
            fill-EntryOk calls s.cache now c.key r gave
              (λ k. EntryOk-mono s.call calls ext k (s.cache k) (v.cached k));
        phases = λ i. PhaseOk-mono s.call calls ext (key i) (s.phase i) (v.phases i);
      }

  pub close-Inv :
      (s : State) (id : ℕ) (c : Call) (r : Found)
      → Inv key s
      → s.call id ≡ some c
      → c.status ≡ landed r
      → Inv key (record s { call = set_status s id c (closed r) })
  close-Inv s id c r v made lands_ =
      let c' : Call = record c { status = closed r } in
      let calls : Calls = put id (some c') s.call in
      let ext : Extends s.call calls =
        Extends-put s.call id c c' made refl (λ q h. landed-closed c r q lands_ h) in
      record {
        flying = λ k j h.
            let (d, made', same, run) = v.flying k j h in
            let ne : j ≢ id = λ e. cc (
              sym lands_
              ∙ sym (ap (λ (x : Call). x.status) (some_same (sym made' ∙ ap s.call e ∙ made)))
              ∙ run) in
            (d, put_other id j (some c') s.call ne ∙ made', same, run);
        listed = λ j d h run. elim (put_cases id j (some c') s.call) [
          | inl (same, at_id) ↦
              let eq : c' ≡ d = some_same (sym at_id ∙ h) in
              absurd (cc (ap (λ (x : Call). x.status) eq ∙ run))
          | inr (ne, there) ↦ v.listed j d (sym there ∙ h) run
        ];
        fresh = λ j h. elim (put_cases id j (some c') s.call) [
          | inl (same, at_id) ↦ absurd (cc (sym made ∙ ap s.call (sym same) ∙ v.fresh j h))
          | inr (ne, there) ↦ there ∙ v.fresh j h
        ];
        cached = λ k. EntryOk-mono s.call calls ext k (s.cache k) (v.cached k);
        phases = λ i. PhaseOk-mono s.call calls ext (key i) (s.phase i) (v.phases i);
      }
