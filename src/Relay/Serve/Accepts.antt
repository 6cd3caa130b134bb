-- ===== src/Relay/Serve/Accepts.antt =====
-- Which connections `serveRelay` relays (relay.go).
use vpnproxy.Base.{
  ℕ, Bool, true, false, List, [], ◌∷◌, ◌++◌, map, Option, none, some, ◌≡◌, inl, inr, refl, ap,
  Bytes, Bool-cases,
}
use vpnproxy.Go.Net.{join_host_port}
use vpnproxy.Go.Strconv.{itoa}
use vpnproxy.Relay.Conn.{Action}
use vpnproxy.Relay.Serve.{
  Connection, Served, not_listening, not_accepting, accepting, relay, accept_loop, serve_relay,
}

module _ (fallback : Bytes) (port : ℕ) where
  -- The connections up to the first error, each with its relay, in order; or none, without a listener.
  pub data Serves (listen : Bytes → Bool) (addr : Bytes) (accepts : List (Option Connection))
      : List (List Action) × Served → Type 0 where
    no_listener : listen addr ≡ false → Serves listen addr accepts ([], not_listening addr)
    goes_on :
        (cs : List Connection)
        → listen addr ≡ true
        → accepts ≡ map some cs
        → Serves listen addr accepts (map (relay fallback port) cs, accepting addr)
    stops :
        (cs : List Connection) (unread : List (Option Connection))
        → listen addr ≡ true
        → accepts ≡ map some cs ++ none ∷ unread
        → Serves listen addr accepts (map (relay fallback port) cs, not_accepting addr)

  accept_loop-Serves :
      (listen : Bytes → Bool) (addr : Bytes) (accepts : List (Option Connection))
      → listen addr ≡ true
      → Serves listen addr accepts (accept_loop fallback port addr accepts)
  unfolding accept_loop
  accept_loop-Serves listen addr [] up = goes_on [] up refl
  accept_loop-Serves listen addr (none ∷ accepts) up = stops [] accepts up refl
  accept_loop-Serves listen addr (some c ∷ accepts) up =
      behind (accept_loop fallback port addr accepts) (accept_loop-Serves listen addr accepts up)
    where
      behind :
          (r : List (List Action) × Served)
          → Serves listen addr accepts r
          → Serves listen addr (some c ∷ accepts) (relay fallback port c ∷ r.0, r.1)
      behind r (no_listener down) = absurd (cc down)
      behind r (goes_on cs on e) = goes_on (c ∷ cs) on (ap (λ x. some c ∷ x) e)
      behind r (stops cs unread on e) = stops (c ∷ cs) unread on (ap (λ x. some c ∷ x) e)

  -- Every connection that is accepted before the first error of `Accept` is relayed, in a goroutine of
  -- its own, in the order of their arrival, and no other; then `serveRelay` returns the error. It goes
  -- on for as long as there is none, and relays nothing if it cannot listen at the address.
  pub serve_relay-Serves :
      (listen_addr : Bytes) (listen : Bytes → Bool) (accepts : List (Option Connection))
      → Serves listen
          (join_host_port listen_addr (itoa port))
          accepts
          (serve_relay fallback port listen_addr listen accepts)
  unfolding serve_relay
  serve_relay-Serves listen_addr listen accepts =
      elim (Bool-cases (listen (join_host_port listen_addr (itoa port)))) [
        | inl up ↦
            rw up (accept_loop-Serves listen (join_host_port listen_addr (itoa port)) accepts up)
        | inr down ↦ rw down (no_listener down)
      ]
