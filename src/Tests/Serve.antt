-- ===== src/Tests/Serve.antt =====
-- `serveRelay` on two connections and an error, and one connection from end to end (relay.go).
use vpnproxy.Base.{true, List, [], ◌∷◌, none, some, ◌≡◌, refl, codes, Memᴰ}
use vpnproxy.Go.Text.{equal}
use vpnproxy.Go.Net.{join_host_port}
use vpnproxy.Go.Strconv.{itoa, digits}
use vpnproxy.Relay.Peek.{Reader, content, sniff, peek_hostname}
use vpnproxy.Relay.Conn.{
  Action, resolves, dials, splices, closes_upstream, closes_client, pick_host, dial_target,
  resolve_host, relay_conn,
}
use vpnproxy.Relay.Splice.{Pair, start, chunk, fails, upward, downward, Run, here, next}
use vpnproxy.Relay.Splice.Invariant.{IsFaithfulPair}
use vpnproxy.Relay.Serve.{Connection, not_accepting, accept_loop, serve_relay}
use vpnproxy.Relay.Serve.Accepts.{Serves, serve_relay-Serves}
use vpnproxy.Relay.Serve.EndToEnd.{IsRelayed, relay_conn-IsFaithful}
use vpnproxy.Tests.Relay.{resolve, dial}

abbrev reader : Reader
reader = record { replay = codes "x"; client = codes "y" ∷ [] }

abbrev actions : List Action
actions =
    resolves (codes "a.io")
    ∷ dials (codes "203.0.113.10:443")
    ∷ splices reader
    ∷ closes_upstream
    ∷ closes_client
    ∷ []

is_relayed : relay_conn resolve dial true (codes "x" ∷ codes "y" ∷ []) (codes "a.io") 443 ≡ actions
unfolding relay_conn resolve_host dial_target peek_hostname sniff equal join_host_port itoa digits
is_relayed = refl

is_spliced :
    Memᴰ
      (splices reader)
      (relay_conn resolve dial true (codes "x" ∷ codes "y" ∷ []) (codes "a.io") 443)
is_spliced = rw is_relayed (Memᴰ.tail (Memᴰ.tail (Memᴰ.head refl)))

-- The copy from upstream fails between the two bytes.
abbrev copied : (s : Pair) × Run (start (content reader) (codes "no")) s
copied = (
  _,
  next
      (next (next here (upward (chunk (codes "x") (codes "y") refl (λ e. cc) refl)))
        (downward (fails refl)))
      (upward (chunk (codes "y") [] refl (λ e. cc) refl)),
)

relay_conn-IsFaithful_example :
    IsRelayed resolve dial
      (pick_host (peek_hostname true (codes "x" ∷ codes "y" ∷ [])).1 (codes "a.io"))
      443
      (peek_hostname true (codes "x" ∷ codes "y" ∷ [])).0
      reader
    × IsFaithfulPair (codes "xy") (codes "no") copied.0
relay_conn-IsFaithful_example =
    relay_conn-IsFaithful resolve dial true (codes "x" ∷ codes "y" ∷ []) (codes "a.io") 443 reader
      is_spliced (codes "no") copied.1

abbrev connection : Connection
connection = record {
  in_time = true;
  pieces = codes "x" ∷ codes "y" ∷ [];
  resolve = resolve;
  dial = dial;
}

two_relays :
    serve_relay
      (codes "a.io")
      443
      (codes "127.0.0.1")
      (λ addr. true)
      (some connection ∷ some connection ∷ none ∷ some connection ∷ [])
    ≡ (actions ∷ actions ∷ [], not_accepting (join_host_port (codes "127.0.0.1") (itoa 443)))
unfolding serve_relay accept_loop relay_conn resolve_host dial_target peek_hostname sniff equal
    join_host_port itoa digits
two_relays = refl

serve_relay-Serves_example :
    Serves
      (codes "a.io")
      443
      (λ addr. true)
      (join_host_port (codes "127.0.0.1") (itoa 443))
      (some connection ∷ none ∷ [])
      (serve_relay
        (codes "a.io")
        443
        (codes "127.0.0.1")
        (λ addr. true)
        (some connection ∷ none ∷ []))
serve_relay-Serves_example =
    serve_relay-Serves (codes "a.io") 443 (codes "127.0.0.1") (λ addr. true)
      (some connection ∷ none ∷ [])
