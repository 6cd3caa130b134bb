-- ===== src/Resolver/Spec/Refines.antt =====
-- From the runs of the shared resolver (resolver.go) to those of its specification.
use mathlib.Core.Path.{subst}
use mathlib.Core.List.Memᴰ
use vpnproxy.Base.{
  some_same, ℕ, List, ◌∷◌, Option, none, some, ◌≡◌, ◌⊎◌, inl, inr, refl, sym, ap, ◌∙◌, arith, Bytes,
  Memᴰ, ltb, Bool-cases,
}
use vpnproxy.Resolver.Lookup.{context_ended}
use vpnproxy.Resolver.Shared.{
  Entry, Found, missed, running, landed, closed, Call, Reply, Phase, uncached, waiting, replied,
  State, put, check_cache, conclude, join, land, set_status, Step, checks, joins, lands, closes,
  wakes, gives_up, Reach, here, next_step, initial,
}
use vpnproxy.Resolver.Shared.Keys.{put_cases, put_self, put_other}
use vpnproxy.Resolver.Shared.Inv.{
  Calls, HasResult, EntryOk, Extends, Extends-fresh, Extends-put, Inv,
}
use vpnproxy.Resolver.Shared.Lands.{no_result, landed-closed}
use vpnproxy.Resolver.Shared.Steps.{Reach-Inv}
use vpnproxy.Resolver.Service.Results.{result_same}
use vpnproxy.Resolver.Spec.{Spec, nothing_yet, IsRight, learns, answers, SpecReach, stays, goes_on}
use vpnproxy.Resolver.Spec.Shows.{
  seen, Covers, Shows, IsHeard-mono, Gave-IsRight, put-Covers, conclude-IsRight,
}

module _ (key host : ℕ → Bytes) where
  -- A run of the specification ends in a state that shows this one.
  abbrev pub IsShown : State → Type 0
  IsShown s = (a : Spec) × SpecReach key nothing_yet a × Shows s a

  -- One caller goes on.
  put_phase-IsShown :
      (s : State) (i : ℕ) (p : Phase)
      → seen (s.phase i) ≡ none
      → ((a : Spec) → Shows s a → (r : Reply) → seen p ≡ some r → IsRight a.learned (key i) r)
      → IsShown s
      → IsShown (record s { phase = put i p s.phase })
  put_phase-IsShown s i p silent right (a, run, v) = by_seen (seen p) refl
    where
      by_seen : (o : Option Reply) → seen p ≡ o → IsShown (record s { phase = put i p s.phase })
      by_seen none h = (
        a,
        run,
        record {
          answer = λ j. elim (put_cases i j p s.phase) [
            | inl (same, at_i) ↦
                v.answer j ∙ ap (λ x. seen (s.phase x)) same ∙ silent ∙ sym h ∙ ap seen (sym at_i)
            | inr (other, there) ↦ v.answer j ∙ ap seen (sym there)
          ];
          learned = v.learned;
          heard = v.heard;
        },
      )
      by_seen (some r) h = (
        record a { answer = put i (some r) a.answer },
        goes_on run (answers i r (v.answer i ∙ silent) (right a v r h)),
        record {
          answer = λ j. elim (put_cases i j p s.phase) [
            | inl (same, at_i) ↦ rw (same, put_self i (some r) a.answer, put_self i p s.phase, h)
            | inr (other, there) ↦
                put_other i j (some r) a.answer other ∙ v.answer j ∙ ap seen (sym there)
          ];
          learned = v.learned;
          heard = v.heard;
        },
      )

  -- The heap of lookups goes on, with nothing new in it.
  put_call-IsShown :
      (s : State) (t : State) (id : ℕ) (c : Call)
      → t.call ≡ put id (some c) s.call
      → ((i : ℕ) → seen (t.phase i) ≡ seen (s.phase i))
      → Extends s.call (put id (some c) s.call)
      → ((l : List (Bytes × Found))
          → Covers l s.call
          → (r : Found) → HasResult c.status r
          → Memᴰ (c.key, r) l)
      → IsShown s
      → IsShown t
  put_call-IsShown s t id c calls same ext old (a, run, v) = (
    a,
    run,
    record {
      answer = λ i. v.answer i ∙ sym (same i);
      learned = rw calls (put-Covers a.learned s.call id c v.learned (old a.learned v.learned));
      heard = λ k r m. rw calls (IsHeard-mono s.call _ ext k r (v.heard k r m));
    },
  )

  -- A lookup lands: its result is learned.
  land-IsShown :
      (s : State) (id now : ℕ) (c : Call) (r : Found)
      → s.call id ≡ some c
      → c.status ≡ running
      → IsShown s
      → IsShown (land s id c r now)
  unfolding land
  land-IsShown s id now c r made runs (a, run, v) =
      let c' : Call = record c { status = landed r } in
      let ext : Extends s.call (put id (some c') s.call) =
        Extends-put s.call id c c' made refl (λ q h. absurd (no_result c q runs h)) in
      (
        record a { learned = (c.key, r) ∷ a.learned },
        goes_on run (learns c.key r),
        record {
          answer = v.answer;
          learned =
              put-Covers ((c.key, r) ∷ a.learned) s.call id c'
                (λ j d q e h. Memᴰ.tail (v.learned j d q e h))
                (λ q h. Memᴰ.head (ap (λ x. (c.key, x)) (result_same (landed r) q r h (inl refl))));
          heard = λ k q m. elim (Memᴰ.cases_cons m) [
            | inl e ↦ (
              id,
              c',
              put_self id (some c') s.call,
              sym (ap (λ x. x.0) e),
              inl (ap (λ x. landed x.1) (sym e)),
            )
            | inr m' ↦ IsHeard-mono s.call _ ext k q (v.heard k q m')
          ];
        },
      )

  close-IsShown :
      (s : State) (id : ℕ) (c : Call) (r : Found)
      → s.call id ≡ some c
      → c.status ≡ landed r
      → IsShown s
      → IsShown (record s { call = set_status s id c (closed r) })
  close-IsShown s id c r made done =
      let c' : Call = record c { status = closed r } in
      put_call-IsShown s (record s { call = set_status s id c (closed r) }) id c' refl (λ i. refl)
        (Extends-put s.call id c c' made refl (λ q h. landed-closed c r q done h))
        (λ l cover q h.
          cover id c q made (inl (done ∙ ap landed (result_same (closed r) r q (inr refl) h))))

  join-IsShown :
      (s : State) (i : ℕ) (cached : Option Entry) (o : Option ℕ)
      → Inv key s
      → s.phase i ≡ uncached cached
      → IsShown s
      → IsShown (join s i (key i) (host i) cached o)
  unfolding join
  join-IsShown s i cached (some id) v at_i sh =
      put_phase-IsShown s i (waiting cached id) (ap seen at_i) (λ a show r h. absurd (cc h)) sh
  join-IsShown s i cached none v at_i sh =
      let c : Call = record { key = key i; host = host i; status = running } in
      put_call-IsShown _ (join s i (key i) (host i) cached none) s.next c refl (λ j. refl)
        (Extends-fresh s.call s.next c (v.fresh s.next (omega arith)))
        (λ l cover r h. absurd (no_result c r refl h))
        (put_phase-IsShown s i (waiting cached s.next) (ap seen at_i) (λ a show r h. absurd (cc h))
          sh)

  check-IsRight :
      (l : List (Bytes × Found)) (calls : Calls) (k : Bytes) (now : ℕ) (o : Option Entry)
      (r : Reply)
      → Covers l calls
      → EntryOk calls k o
      → seen (check_cache now o) ≡ some r
      → IsRight l k r
  unfolding check_cache
  check-IsRight l calls k now none r cover old h = absurd (cc h)
  check-IsRight l calls k now (some e) r cover old h = elim (Bool-cases (ltb now e.expiry)) [
    | inl valid ↦
        subst (IsRight l k) (some_same (rw valid at h)) (Gave-IsRight l calls k e.ip cover old)
    | inr over ↦ absurd (cc (rw over at h))
  ]

  -- What the caller's lookup found is learned, and its expired entry is still right.
  wake-IsRight :
      (s : State) (i id : ℕ) (cached : Option Entry) (r : Found)
      → Inv key s
      → s.phase i ≡ waiting cached id
      → ((c : Call)
          → s.call id ≡ some c
          → c.key ≡ key i
          → (r ≡ missed context_ended) ⊎ HasResult c.status r)
      → (a : Spec) → Shows s a
      → (q : Reply) → seen (replied (conclude cached r)) ≡ some q
      → IsRight a.learned (key i) q
  wake-IsRight s i id cached r v at_i came a show q h =
      let (old, (c, made, same)) = (rw at_i at (v.phases i)) in
      subst (IsRight a.learned (key i)) (some_same h) (
        conclude-IsRight a.learned s.call (key i) cached r show.learned old
          (elim (came c made same) [
            | inl e ↦ inl e
            | inr has ↦ inr (subst (λ x. Memᴰ (x, r) a.learned) same (show.learned id c r made has))
          ]))

  Step-IsShown : {s t : State} → Step key host s t → Inv key s → IsShown s → IsShown t
  Step-IsShown {s} (checks i now at_i) v =
      put_phase-IsShown s i _ (ap seen at_i)
        (λ a show r. check-IsRight a.learned s.call (key i) now _ r show.learned (v.cached (key i)))
  Step-IsShown {s} (joins i cached at_i) v = join-IsShown s i cached (s.inflight (key i)) v at_i
  Step-IsShown {s} (lands id now c r made runs) v = land-IsShown s id now c r made runs
  Step-IsShown {s} (closes id c r made done) v = close-IsShown s id c r made done
  Step-IsShown {s} (wakes i id cached c r at_i made done) v =
      put_phase-IsShown s i _ (ap seen at_i) (
        wake-IsRight s i id cached r v at_i (λ d made' same.
          inr (inr (ap (λ (x : Call). x.status) (some_same (sym made' ∙ made)) ∙ done))))
  Step-IsShown {s} (gives_up i id cached at_i) v =
      put_phase-IsShown s i _ (ap seen at_i)
        (wake-IsRight s i id cached (missed context_ended) v at_i (λ d made' same. inl refl))

  -- Every run of the resolver, however its goroutines interleave, is a run of the specification, in
  -- which results are learned, and each caller gets one answer at most: an address that was learned
  -- for its name, an error with which a lookup for its name failed, or that its own time is over. The
  -- specification ends with the same answers, and has learned exactly the results of the lookups that
  -- have ended.
  pub Reach-IsShown : {s : State} → Reach key host initial s → IsShown s
  Reach-IsShown here = (
    nothing_yet,
    stays,
    record {
      answer = λ i. refl;
      learned = λ id c r e. absurd (cc e);
      heard = λ k r m. absurd (Memᴰ.not-nil m);
    },
  )
  Reach-IsShown (next_step r st) = Step-IsShown st (Reach-Inv key host r) (Reach-IsShown r)
