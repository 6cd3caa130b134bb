-- ===== src/Relay/Serve.antt =====
-- `serveRelay` of relay.go: the accept loop, which starts a `relayConn` for every connection. What the
-- listener gives is a parameter, as are the resolver and the network that each connection meets.
pub mod Accepts
pub mod EndToEnd
pub mod Dialed
use vpnproxy.Base.{ℕ, Bool, true, false, List, [], ◌∷◌, Option, none, some, Bytes, if◌then◌else◌}
use vpnproxy.Go.Net.{join_host_port}
use vpnproxy.Go.Strconv.{itoa}
use vpnproxy.Relay.Conn.{Action, relay_conn}

-- A connection, and what it meets: whether its first bytes come in time, what the client sends, what
-- its host resolves to, and which dials succeed.
pub record Connection : Type 0 where
  pub in_time : Bool
  pub pieces : List Bytes
  pub resolve : Bytes → Option Bytes
  pub dial : Bytes → Bool

-- How `serveRelay` stands: it has returned an error about an address, or waits for a connection.
pub data Served : Type 0 where
  not_listening not_accepting accepting : Bytes → Served

module _ (fallback : Bytes) (port : ℕ) where
  -- What the goroutine of a connection does.
  abbrev pub relay : Connection → List Action
  relay c = relay_conn c.resolve c.dial c.in_time c.pieces fallback port

  -- The loop, on the results of `Accept` so far; `none` is its error.
  unfoldable pub accept_loop : Bytes → List (Option Connection) → List (List Action) × Served
  accept_loop addr [] = ([], accepting addr)
  accept_loop addr (none ∷ accepts) = ([], not_accepting addr)
  accept_loop addr (some c ∷ accepts) =
      let (started, end) = accept_loop addr accepts in (relay c ∷ started, end)

  -- The goroutines that it starts, in order, and how it stands.
  unfoldable pub serve_relay :
      Bytes → (Bytes → Bool) → List (Option Connection) → List (List Action) × Served
  serve_relay listen_addr listen accepts =
      let addr = join_host_port listen_addr (itoa port) in
      if listen addr then accept_loop addr accepts else ([], not_listening addr)
