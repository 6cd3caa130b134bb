-- ===== src/Wireguard/Peers.antt =====
-- `logPeerStatus`, `anyPrefixContains` and `waitForHandshake` of wireguard.go.
use vpnproxy.Base.{
  ℕ, zero, suc, ◌+◌, ◌-◌, ◌/◌, ◌^◌, Bool, true, false, ◌&&◌, ◌||◌, List, [], ◌∷◌, ◌++◌, Option,
  none, some, Bytes, ltb, ◌==◌, if◌then◌else◌, length,
}
use vpnproxy.Go.Text.{equal}
use vpnproxy.Go.Duration.{Duration, add}
use vpnproxy.Resolver.Ip.{Ip}
use vpnproxy.Wireguard.{Prefix, PeerStatus}

-- netip.Addr.
pub record Addr : Type 0 where
  pub ip : Ip
  pub zone : Bytes

-- The first `bits` bits of two addresses of one length are the same.
unfoldable pub same_bits : ℕ → Bytes → Bytes → Bool
same_bits bits (x ∷ a) (y ∷ b) =
    let rest = same_bits (bits - 8) a b in
    if ltb bits 8 then x / 2 ^ (8 - bits) == y / 2 ^ (8 - bits) else x == y && rest
same_bits _ _ _ = true

-- `p.Contains(addr)`: never an address with a zone, or of the other family.
unfoldable pub prefix_contains : Prefix → Addr → Bool
unfolding same_bits equal
prefix_contains p a = equal a.zone [] && length p.ip == length a.ip && same_bits p.bits p.ip a.ip

unfoldable pub any_prefix_contains : List Prefix → Addr → Bool
any_prefix_contains [] a = false
any_prefix_contains (p ∷ ps) a = prefix_contains p a || any_prefix_contains ps a

-- The lines of the log.
pub data Notice : Type 0 where
  unavailable : Notice
  handshaken : Bytes → List Prefix → Notice
  uncovered : Addr → Notice

unfoldable pub warnings : List Prefix → List Addr → List Notice
warnings allowed [] = []
warnings allowed (dns ∷ servers) =
    let rest = warnings allowed servers in
    if any_prefix_contains allowed dns then rest else uncovered dns ∷ rest

unfoldable pub notices : List PeerStatus → List Addr → List Notice
notices [] servers = []
notices (p ∷ ps) servers =
    handshaken p.endpoint p.allowed_ips ∷ (warnings p.allowed_ips servers ++ notices ps servers)

-- `logPeerStatus`, on the result of `peerStatuses`.
unfoldable pub log_peer_status : Option (List PeerStatus) → List Addr → List Notice
log_peer_status none servers = unavailable ∷ []
log_peer_status (some ps) servers = notices ps servers

-- Some peer has completed a handshake: its time is not the zero time.
unfoldable pub has_handshake : List PeerStatus → Bool
has_handshake [] = false
has_handshake (p ∷ ps) = elim p.last_handshake [ some secs ↦ true | none ↦ has_handshake ps ]

pub data Waited : Type 0 where
  connected query_failed timed_out : Waited

-- In poll `i`, `peerStatuses` gives `status i`, and the clock reads `clock i` behind it.
module _ (status : ℕ → Option (List PeerStatus)) (clock : ℕ → ℕ) where
  -- `fuel` polls, from poll `i` on; `none` is a loop that has not ended.
  unfoldable pub poll : ℕ → ℕ → ℕ → Option Waited
  poll zero i deadline = none
  poll (suc fuel) i deadline = elim (status i) [
    | none ↦ some query_failed
    | some ps ↦ elim (has_handshake ps) [
      | true ↦ some connected
      | false ↦ elim (ltb deadline (clock i)) [
        | true ↦ some timed_out
        | false ↦ poll fuel (i + 1) deadline
      ]
    ]
  ]

  unfoldable pub wait_for_handshake : ℕ → ℕ → Duration → Option Waited
  wait_for_handshake fuel start timeout = poll fuel 0 (add start timeout)
