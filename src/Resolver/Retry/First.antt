-- ===== src/Resolver/Retry/First.antt =====
-- Which attempt decides what `queryDNSRetry` returns (resolver.go).
use vpnproxy.Base.{
  ℕ, zero, suc, ◌+◌, ◌%◌, ◌<◌, Bool, true, false, List, [], ◌∷◌, ◌++◌, none, some, ◌≡◌, ◌≢◌, ◌↔◌,
  ◌⊎◌, inl, inr, refl, sym, ◌∙◌, arith, Bytes, length, get_elem?, get_elem?-lt, Bool-cases,
  Option-cases,
}
use vpnproxy.Go.Duration.{Duration, times}
use vpnproxy.Resolver.Query.{DnsError, Queried, gave, failed_with, Answer}
use vpnproxy.Resolver.Retry.{Retried, answered, crashed, finish, attempts, query_dns_retry}

pub Queried-cases {ℓ} :
    {A : Type ℓ} (r : Queried A) → ((a : A) × (r ≡ gave a)) ⊎ ((e : DnsError) × (r ≡ failed_with e))
Queried-cases (gave a) = inl (a, refl)
Queried-cases (failed_with e) = inr (e, refl)

answered-injective : {a b : List Answer} → answered a ≡ answered b → a ≡ b
answered-injective h = cc

module _ (alive : ℕ → Bool) (query : ℕ → Bytes → Duration → Queried (List Answer))
    (servers : List Bytes) (timeout : Duration) where
  -- Attempt `i` is made, at the server whose turn it is, with a timeout that grows, and gives `r`.
  abbrev pub Gives : ℕ → Queried (List Answer) → Type 0
  Gives i r =
      (alive i ≡ true)
      × (server : Bytes) × (get_elem? servers (i % length servers) ≡ some server)
      × (query i server (times timeout (i + 1)) ≡ r)

  -- From attempt `i` on, `d` attempts fail and the next one answers.
  abbrev pub FirstAt : ℕ → ℕ → List Answer → Type 0
  FirstAt i zero as' = Gives i (gave as')
  FirstAt i (suc d) as' = ((e : DnsError) × Gives i (failed_with e)) × FirstAt (i + 1) d as'

  abbrev run : ℕ → ℕ → List DnsError → Retried
  run = attempts alive query servers timeout

  run_none : (i : ℕ) (errs : List DnsError) → run zero i errs ≡ finish errs
  unfolding attempts
  run_none i errs = refl

  run_over :
      (left i : ℕ) (errs : List DnsError) → alive i ≡ false → run (suc left) i errs ≡ finish errs
  unfolding attempts
  run_over left i errs h = rw (attempts, h)

  run_ok :
      (left i : ℕ) (errs : List DnsError) {as' : List Answer}
      → Gives i (gave as')
      → run (suc left) i errs ≡ answered as'
  unfolding attempts
  run_ok left i errs (up, server, turn, good) = rw (attempts, up, turn, good)

  run_err :
      (left i : ℕ) (errs : List DnsError) {e : DnsError}
      → Gives i (failed_with e)
      → run (suc left) i errs ≡ run left (i + 1) (errs ++ e ∷ [])
  unfolding attempts
  run_err left i errs (up, server, turn, bad) = rw (attempts, up, turn, bad)

  run_crashed :
      (left i : ℕ) (errs : List DnsError)
      → alive i ≡ true
      → get_elem? servers (i % length servers) ≡ none
      → run (suc left) i errs ≡ crashed
  unfolding attempts
  run_crashed left i errs up missing = rw (attempts, up, missing)

  -- What an attempt can come to.
  abbrev Turn : ℕ → Type 0
  Turn i =
      (alive i ≡ false)
      ⊎ ((alive i ≡ true) × (get_elem? servers (i % length servers) ≡ none))
      ⊎ ((as' : List Answer) × Gives i (gave as'))
      ⊎ ((e : DnsError) × Gives i (failed_with e))

  turn : (i : ℕ) → Turn i
  turn i = elim (Bool-cases (alive i)) [
    | inr over ↦ inl over
    | inl up ↦ elim (Option-cases (get_elem? servers (i % length servers))) [
      | inl missing ↦ inr (inl (up, missing))
      | inr (server, here) ↦ elim (Queried-cases (query i server (times timeout (i + 1)))) [
        | inl (found, good) ↦ inr (inr (inl (found, (up, server, here, good))))
        | inr (e, bad) ↦ inr (inr (inr (e, (up, server, here, bad))))
      ]
    ]
  ]

  finish-not-answered : (errs : List DnsError) (as' : List Answer) → finish errs ≢ answered as'
  finish-not-answered [] as' e = cc
  finish-not-answered (x ∷ errs) as' e = cc

  run-FirstAt :
      (left i : ℕ) (errs : List DnsError) (as' : List Answer)
      → run left i errs ≡ answered as'
      → (d : ℕ) × (d < left) × FirstAt i d as'
  run-FirstAt zero i errs as' h = absurd (finish-not-answered errs as' (sym (run_none i errs) ∙ h))
  run-FirstAt (suc left) i errs as' h = elim (turn i) [
    | inl over ↦ absurd (finish-not-answered errs as' (sym (run_over left i errs over) ∙ h))
    | inr (inl (up, missing)) ↦ absurd (cc (run_crashed left i errs up missing))
    | inr (inr (inl (found, g))) ↦
        (0, omega arith, rw (answered-injective (sym (run_ok left i errs g) ∙ h)) at g)
    | inr (inr (inr (e, g))) ↦
        let (d, lt, rest) =
          run-FirstAt left (i + 1) (errs ++ e ∷ []) as' (sym (run_err left i errs g) ∙ h) in
        (suc d, omega arith, ((e, g), rest))
  ]

  FirstAt-run :
      (d left i : ℕ) (errs : List DnsError) (as' : List Answer)
      → d < left
      → FirstAt i d as'
      → run left i errs ≡ answered as'
  FirstAt-run d zero i errs as' lt f = absurd (omega arith)
  FirstAt-run zero (suc left) i errs as' lt g = run_ok left i errs g
  FirstAt-run (suc d) (suc left) i errs as' lt ((e, g), f) =
      run_err left i errs g ∙ FirstAt-run d left (i + 1) (errs ++ e ∷ []) as' (omega arith) f

  -- The result is answers exactly when one of the three attempts gives them and all attempts before it
  -- failed. Attempt `i` asks server `i` modulo their number, and waits `i + 1` times the timeout.
  pub query_dns_retry-answered :
      (as' : List Answer)
      → (query_dns_retry alive query servers timeout ≡ answered as')
        ↔ ((d : ℕ) × (d < 3) × FirstAt 0 d as')
  unfolding query_dns_retry
  query_dns_retry-answered as' =
      (run-FirstAt 3 0 [] as', λ (d, lt, f). FirstAt-run d 3 0 [] as' lt f)

  pub FirstAt-Gives : (i d : ℕ) (as' : List Answer) → FirstAt i d as' → (j : ℕ) × Gives j (gave as')
  FirstAt-Gives i zero as' g = (i, g)
  FirstAt-Gives i (suc d) as' (bad, f) = FirstAt-Gives (i + 1) d as' f

  finish-ne-crashed : (errs : List DnsError) → finish errs ≢ crashed
  finish-ne-crashed [] e = cc
  finish-ne-crashed (x ∷ errs) e = cc

  run-ne-crashed :
      (left i : ℕ) (errs : List DnsError) → 0 < length servers → run left i errs ≢ crashed
  run-ne-crashed zero i errs some_ h = finish-ne-crashed errs (sym (run_none i errs) ∙ h)
  run-ne-crashed (suc left) i errs some_ h = elim (turn i) [
    | inl over ↦ finish-ne-crashed errs (sym (run_over left i errs over) ∙ h)
    | inr (inl (up, missing)) ↦
        let (x, here) = get_elem?-lt servers (i % length servers) (grind arith) in cc
    | inr (inr (inl (found, g))) ↦ cc (run_ok left i errs g)
    | inr (inr (inr (e, g))) ↦
        run-ne-crashed left (i + 1) (errs ++ e ∷ []) some_ (sym (run_err left i errs g) ∙ h)
  ]

  -- With a server there is no panic.
  pub query_dns_retry-ne-crashed :
      0 < length servers → query_dns_retry alive query servers timeout ≢ crashed
  unfolding query_dns_retry
  query_dns_retry-ne-crashed some_ = run-ne-crashed 3 0 [] some_
