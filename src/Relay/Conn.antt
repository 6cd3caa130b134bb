-- ===== src/Relay/Conn.antt =====
-- `relayConn` of relay.go: what one connection makes the proxy do, in order.
pub mod Paths
use vpnproxy.Base.{
  ℕ, Bool, true, false, List, [], ◌∷◌, ◌++◌, Option, none, some, Bytes, if◌then◌else◌,
}
use vpnproxy.Go.Net.{join_host_port}
use vpnproxy.Go.Strconv.{itoa}
use vpnproxy.Relay.Peek.{Reader, peek_hostname}

-- What the function does to the world; its log lines are left out.
pub data Action : Type 0 where
  resolves : Bytes → Action
  dials : Bytes → Action
  splices : Reader → Action
  closes_upstream : Action
  closes_client : Action

-- `host := sniffed; if host == "" { host = fallbackTarget }`
abbrev pub pick_host : Bytes → Bytes → Bytes
pick_host [] fallback = fallback
pick_host (c ∷ s) fallback = c ∷ s

-- The resolver's answer to this connection, and whether a dial through the tunnel succeeds.
module _ (resolve : Bytes → Option Bytes) (dial : Bytes → Bool) where
  -- From the dial on; the deferred `upstream.Close()` runs at the return.
  unfoldable pub dial_target : Reader → Bytes → List Action
  dial_target reader dst =
      dials dst ∷ (if dial dst then splices reader ∷ closes_upstream ∷ [] else [])

  unfoldable pub resolve_host : Reader → Bytes → ℕ → List Action
  resolve_host reader [] port = []
  resolve_host reader (c ∷ s) port = resolves (c ∷ s) ∷ elim (resolve (c ∷ s)) [
    | none ↦ []
    | some target ↦ dial_target reader (join_host_port target (itoa port))
  ]

  -- `defer client.Close()` runs last on every path.
  unfoldable pub relay_conn : Bool → List Bytes → Bytes → ℕ → List Action
  relay_conn in_time pieces fallback port =
      let (reader, sniffed) = peek_hostname in_time pieces in
      resolve_host reader (pick_host sniffed fallback) port ++ closes_client ∷ []
