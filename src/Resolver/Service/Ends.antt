-- ===== src/Resolver/Service/Ends.antt =====
-- How many steps the service of finitely many callers takes (resolver.go).
use vpnproxy.Base.{
  ℕ, zero, suc, ◌+◌, ◌*◌, ◌<◌, ◌≤◌, Option, none, some, ◌≡◌, ◌⊎◌, inl, inr, refl, sym, ap, ◌∙◌,
  arith, Bytes, ltb, Bool-cases,
}
use vpnproxy.Resolver.Lookup.{no_record}
use vpnproxy.Resolver.Shared.{
  Entry, missed, running, landed, closed, Status, Call, Reply, Phase, starting, uncached, waiting,
  replied, State, put, check_cache, set_status, land, join, Step, checks, joins, lands, closes,
  wakes, gives_up, Reach, here, next_step, initial,
}
use vpnproxy.Resolver.Shared.Keys.{put_self}
use vpnproxy.Resolver.Shared.Inv.{Inv}
use vpnproxy.Resolver.Shared.Steps.{Reach-Inv}
use vpnproxy.Resolver.Service.{Each, IsPatient}
use vpnproxy.Resolver.Service.Sums.{sum, sum_next, sum-put-above, sum-put}

-- The steps that a caller may still cause, and a lookup.
abbrev pub phase_work : Phase → ℕ
phase_work starting = 5
phase_work (uncached cached) = 4
phase_work (waiting cached id) = 1
phase_work (replied r) = 0

abbrev pub status_work : Status → ℕ
status_work running = 2
status_work (landed r) = 1
status_work (closed r) = 0

abbrev pub call_work : Option Call → ℕ
call_work none = 0
call_work (some c) = status_work c.status

-- Of the first `n` callers, and of all lookups.
abbrev pub work : ℕ → State → ℕ
work n s = sum (λ i. phase_work (s.phase i)) n + sum (λ id. call_work (s.call id)) s.next

check_cache-work : (now : ℕ) (o : Option Entry) → phase_work (check_cache now o) ≤ 4
unfolding check_cache
check_cache-work now none = omega arith
check_cache-work now (some e) = elim (Bool-cases (ltb now e.expiry)) [
  | inl valid ↦ rw valid (omega arith)
  | inr over ↦ rw over (omega arith)
]

sum_const : (c m : ℕ) → sum (λ i. c) m ≡ c * m
sum_const c zero = omega arith
sum_const c (suc m) = let rest = sum_const c m in ground arith

module _ (n : ℕ) where
  -- One caller goes on.
  phase-work :
      (s : State) (i : ℕ) (p : Phase)
      → i < n
      → phase_work p < phase_work (s.phase i)
      → work n (record s { phase = put i p s.phase }) < work n s
  phase-work s i p lt less_ = omega (arith, sum-put phase_work i p s.phase n lt)

  -- A lookup goes on.
  call-work :
      (s t : State) (id : ℕ) (c : Call) (st : Status)
      → id < s.next
      → s.call id ≡ some c
      → status_work st < status_work c.status
      → t.call ≡ set_status s id c st
      → t.next ≡ s.next
      → t.phase ≡ s.phase
      → work n t < work n s
  call-work s t id c st lt made less_ calls same phases =
      rw (calls, same, phases)
        (omega (
          arith,
          sum-put call_work id (some (record c { status = st })) s.call s.next lt,
          ap call_work made,
        ))

  module _ (key host : ℕ → Bytes) where
    -- Only the first `n` callers take steps.
    abbrev pub IsOfFirst : (s t : State) → Step key host s t → Type 0
    IsOfFirst s t (checks i now at_i) = i < n
    IsOfFirst s t (joins i cached at_i) = i < n
    IsOfFirst s t (lands id now c r made runs) = Unit
    IsOfFirst s t (closes id c r made done) = Unit
    IsOfFirst s t (wakes i id cached c r at_i made done) = i < n
    IsOfFirst s t (gives_up i id cached at_i) = i < n

    call_below : (s : State) (id : ℕ) (c : Call) → Inv key s → s.call id ≡ some c → id < s.next
    call_below s id c v made = elim (Bool-cases (ltb id s.next)) [
      | inl lt ↦ ground arith
      | inr ge ↦ let le : s.next ≤ id = ground arith in absurd (cc (sym made ∙ v.fresh id le))
    ]

    join-work :
        (s : State) (i : ℕ) (cached : Option Entry) (o : Option ℕ)
        → i < n
        → s.phase i ≡ uncached cached
        → work n (join s i (key i) (host i) cached o) < work n s
    unfolding join
    join-work s i cached (some id) lt at_i =
        phase-work s i (waiting cached id) lt (omega (arith, ap phase_work at_i))
    join-work s i cached none lt at_i =
        let c : Call = record { key = key i; host = host i; status = running } in
        let calls : ℕ → ℕ = λ id. call_work (put s.next (some c) s.call id) in
        let last : calls s.next ≡ 2 = ap call_work (put_self s.next (some c) s.call) in
        let unrolled : sum calls (s.next + 1) ≡ calls s.next + sum calls s.next =
          sum_next calls s.next in
        omega (
          arith,
          sum-put phase_work i (waiting cached s.next) s.phase n lt,
          sum-put-above call_work s.next (some c) s.call s.next (omega arith),
          last,
          unrolled,
          ap phase_work at_i,
        )

    Step-work :
        {s t : State} (st : Step key host s t) → Inv key s → IsOfFirst s t st → work n t < work n s
    unfolding land
    Step-work {s} (checks i now at_i) v lt =
        phase-work s i _ lt
          (omega (arith, check_cache-work now (s.cache (key i)), ap phase_work at_i))
    Step-work {s} (joins i cached at_i) v lt = join-work s i cached (s.inflight (key i)) lt at_i
    Step-work {s} (lands id now c r made runs) v lt =
        call-work s (land s id c r now) id c (landed r) (call_below s id c v made) made
          (omega (arith, ap status_work runs)) refl refl refl
    Step-work {s} (closes id c r made done) v lt =
        call-work s (record s { call = set_status s id c (closed r) }) id c (closed r)
          (call_below s id c v made) made (omega (arith, ap status_work done)) refl refl refl
    Step-work {s} (wakes i id cached c r at_i made done) v lt =
        phase-work s i _ lt (omega (arith, ap phase_work at_i))
    Step-work {s} (gives_up i id cached at_i) v lt =
        phase-work s i _ lt (omega (arith, ap phase_work at_i))

    abbrev pub steps : {s t : State} → Reach key host s t → ℕ
    steps here = 0
    steps (next_step r st) = steps r + 1

    steps-work :
        {s : State} (r : Reach key host initial s)
        → Each key host IsOfFirst r
        → steps r + work n s ≤ work n initial
    steps-work here ok = omega arith
    steps-work (next_step {t} {u} r st) (ok, of) =
        let less_ = Step-work st (Reach-Inv key host r) of in
        let rest = steps-work r ok in omega arith

    abbrev pub IsAnswered : State → ℕ → Type 0
    IsAnswered s i = (reply : Reply) × (s.phase i ≡ replied reply)

    -- A step of the caller's own or of its lookup, though the caller does not give up.
    abbrev pub GoesOn : State → Type 0
    GoesOn s = (t : State) × (st : Step key host s t) × IsPatient key host s t st

    call-GoesOn :
        (s : State) (i id : ℕ) (cached : Option Entry) (c : Call) (st : Status)
        → s.phase i ≡ waiting cached id
        → s.call id ≡ some c
        → c.status ≡ st
        → GoesOn s
    call-GoesOn s i id cached c running at_i made h =
        (_, lands id 0 c (missed no_record) made h, tt)
    call-GoesOn s i id cached c (landed r) at_i made h = (_, closes id c r made h, tt)
    call-GoesOn s i id cached c (closed r) at_i made h = (_, wakes i id cached c r at_i made h, tt)

    caller-GoesOn :
        (s : State) (i : ℕ) (p : Phase) → Inv key s → s.phase i ≡ p → IsAnswered s i ⊎ GoesOn s
    caller-GoesOn s i starting v h = inr (_, checks i 0 h, tt)
    caller-GoesOn s i (uncached o) v h = inr (_, joins i o h, tt)
    caller-GoesOn s i (waiting o id) v h =
        let (old, (c, made, same)) = (rw h at (v.phases i)) in
        inr (call-GoesOn s i id o c c.status h made refl)
    caller-GoesOn s i (replied reply) v h = inl (reply, h)

    -- The service of the first `n` callers ends: in every interleaving of their steps with those of the
    -- lookups there are at most five steps for each caller; and as long as a caller has no answer, the
    -- service can go on, also if nobody gives up.
    pub Reach_terminates :
        {s : State} (r : Reach key host initial s)
        → Each key host IsOfFirst r
        → (steps r ≤ 5 * n) × ((i : ℕ) → IsAnswered s i ⊎ GoesOn s)
    Reach_terminates {s} r ok =
        let most = steps-work r ok in
        let all : sum (λ i. 5) n ≡ 5 * n = sum_const 5 n in
        (omega arith, λ i. caller-GoesOn s i (s.phase i) (Reach-Inv key host r) refl)
