-- ===== src/Tests/Relay.antt =====
-- `relayConn` on one connection, and a run of its two copies (relay.go).
use vpnproxy.Base.{Bool, true, [], ◌∷◌, Option, none, some, ◌≡◌, refl, Bytes, codes, if◌then◌else◌}
use vpnproxy.Go.Text.{equal}
use vpnproxy.Relay.Peek.{flat, sniff, peek_hostname}
use vpnproxy.Relay.Conn.{resolves, closes_client, resolve_host, relay_conn}
use vpnproxy.Relay.Conn.Paths.{IsPicked, IsOrderly, relay_conn-IsOrderly}
use vpnproxy.Relay.Splice.{
  Pair, start, chunk, fails, upward, downward, client_ends, Run, here, next,
}

abbrev pub resolve : Bytes → Option Bytes
resolve host = if equal host (codes "a.io") then some (codes "203.0.113.10") else none

abbrev pub dial : Bytes → Bool
dial dst = equal dst (codes "203.0.113.10:443")

unresolved_host :
    relay_conn resolve dial true (codes "x" ∷ []) (codes "b.io") 443
    ≡ resolves (codes "b.io") ∷ closes_client ∷ []
unfolding relay_conn resolve_host peek_hostname sniff equal
unresolved_host = refl

relay_conn-IsOrderly_example :
    (host : Bytes) × IsPicked
      (peek_hostname true (codes "x" ∷ codes "y" ∷ [])).1
      (codes "a.io")
      host
    × IsOrderly resolve dial host 443
        (flat (codes "x" ∷ codes "y" ∷ []))
        (relay_conn resolve dial true (codes "x" ∷ codes "y" ∷ []) (codes "a.io") 443)
relay_conn-IsOrderly_example =
    relay_conn-IsOrderly resolve dial true (codes "x" ∷ codes "y" ∷ []) (codes "a.io") 443

-- The client's two bytes arrive in pieces, the upstream's copy fails between them, and the client ends.
abbrev moved : (s : Pair) × Run (start (codes "hi") (codes "no")) s
moved = (
  _,
  next
      (next
        (next (next here (upward (chunk (codes "h") (codes "i") refl (λ e. cc) refl)))
          (downward (fails refl)))
        (upward (chunk (codes "i") [] refl (λ e. cc) refl)))
      (client_ends refl),
)
