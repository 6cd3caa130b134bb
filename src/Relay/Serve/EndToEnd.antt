-- ===== src/Relay/Serve/EndToEnd.antt =====
-- A connection of `relayConn`, from its first byte to its last (relay.go).
use mathlib.Core.Path.{subst}
use mathlib.Core.List.Memᴰ
use vpnproxy.Base.{
  mem_later, ℕ, Bool, List, Option, some, true, ◌≡◌, ap, inl, inr, ◌∙◌, Bytes, Memᴰ,
}
use vpnproxy.Go.Net.{join_host_port}
use vpnproxy.Go.Strconv.{itoa}
use vpnproxy.Relay.Peek.{Reader, flat, content, peek_hostname}
use vpnproxy.Relay.Conn.{Action, splices, pick_host, relay_conn}
use vpnproxy.Relay.Conn.Paths.{Course, no_host, unresolved, undialed, relayed, relay_conn-Course}
use vpnproxy.Relay.Splice.{Pair, start, Run}
use vpnproxy.Relay.Splice.Invariant.{IsFaithfulPair, Run-IsFaithful}

same_reader : {r q : Reader} → splices r ≡ splices q → r ≡ q
same_reader e = cc

module _ (resolve : Bytes → Option Bytes) (dial : Bytes → Bool) where
  -- The reader is the given one, and the connection upstream leads to an address of this host.
  abbrev pub IsRelayed : Bytes → ℕ → Reader → Reader → Type 0
  IsRelayed host port reader r =
      (r ≡ reader)
      × ((target : Bytes) × (resolve host ≡ some target)
          × (dial (join_host_port target (itoa port)) ≡ true))

  Course-splices :
      (host : Bytes) (port : ℕ) (reader r : Reader) (as' : List Action)
      → Course resolve dial host port reader as'
      → Memᴰ (splices r) as'
      → IsRelayed host port reader r
  Course-splices host port reader r as' (no_host none_) m =
      absurd (Memᴰ.not-nil (mem_later (λ e. cc) m))
  Course-splices host port reader r as' (unresolved h lost) m =
      absurd (Memᴰ.not-nil (mem_later (λ e. cc) (mem_later (λ e. cc) m)))
  Course-splices host port reader r as' (undialed target h found down) m =
      absurd (Memᴰ.not-nil (mem_later (λ e. cc) (mem_later (λ e. cc) (mem_later (λ e. cc) m))))
  Course-splices host port reader r as' (relayed target h found up) m =
      elim (Memᴰ.cases_cons (mem_later (λ e. cc) (mem_later (λ e. cc) m))) [
        | inl e ↦ (same_reader e, (target, found, up))
        | inr rest ↦ absurd (Memᴰ.not-nil (mem_later (λ e. cc) (mem_later (λ e. cc) rest)))
      ]

  -- Where `relayConn` splices a connection, the other end is a successful dial, at the listener's port, to
  -- the address of the sniffed host (or of the fallback); and, however the two copies interleave and
  -- fail, each side has received a prefix of what the other sent: the client's bytes from the very first
  -- on, though some were read to find the host.
  pub relay_conn-IsFaithful :
      (in_time : Bool) (pieces : List Bytes) (fallback : Bytes) (port : ℕ) (r : Reader)
      → Memᴰ (splices r) (relay_conn resolve dial in_time pieces fallback port)
      → (upstream : Bytes) {s : Pair} → Run (start (content r) upstream) s
      → IsRelayed
          (pick_host (peek_hostname in_time pieces).1 fallback)
          port
          (peek_hostname in_time pieces).0
          r
        × IsFaithfulPair (flat pieces) upstream s
  relay_conn-IsFaithful in_time pieces fallback port r m upstream {s} run =
      let (course, whole) = relay_conn-Course resolve dial in_time pieces fallback port in
      let is = Course-splices _ port (peek_hostname in_time pieces).0 r _ course m in
      (
        is,
        subst (λ b. IsFaithfulPair b upstream s) (ap content is.0 ∙ whole)
            (Run-IsFaithful (content r) upstream run),
      )
