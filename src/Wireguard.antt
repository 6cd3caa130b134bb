-- ===== src/Wireguard.antt =====
-- `parsePeerStatuses` of wireguard.go. The device's `IpcGet` and `netip.ParsePrefix` are not part of
-- the repository.
pub mod Report
pub mod Fields
pub mod Lines
pub mod Status
pub mod Peers
pub mod Covered
pub mod Handshake
pub mod Describe
use vpnproxy.Base.{ℕ, suc, List, [], ◌∷◌, ◌++◌, Option, none, some, Bytes, codes, if◌then◌else◌}
use vpnproxy.Go.Text.{equal, split, cut}
use vpnproxy.Go.Strconv.{ℤ, pos, atoi, parse_uint}
use vpnproxy.Resolver.Ip.{Ip}

-- netip.Prefix, of an address without a zone.
pub record Prefix : Type 0 where
  pub ip : Ip
  pub bits : ℕ

-- `last_handshake` is the Unix time in seconds; `none` is the zero time, which no such time above 0 is.
pub record PeerStatus : Type 0 where
  pub endpoint : Bytes
  pub allowed_ips : List Prefix
  pub last_handshake : Option ℕ
  pub tx_bytes : ℕ
  pub rx_bytes : ℕ

abbrev pub new_peer : PeerStatus
new_peer = record {
  endpoint = [];
  allowed_ips = [];
  last_handshake = none;
  tx_bytes = 0;
  rx_bytes = 0;
}

-- `cur` is nil or points to the last peer.
unfoldable pub update_last : (PeerStatus → PeerStatus) → List PeerStatus → List PeerStatus
update_last f [] = []
update_last f (p ∷ []) = f p ∷ []
update_last f (p ∷ q ∷ ps) = p ∷ update_last f (q ∷ ps)

abbrev pub add_prefix : Option Prefix → List Prefix → List Prefix
add_prefix none ps = ps
add_prefix (some p) ps = ps ++ p ∷ []

-- `err == nil && secs > 0`
abbrev pub handshake_time : Option ℤ → Option ℕ → Option ℕ
handshake_time (some (pos (suc n))) old = some (suc n)
handshake_time _ old = old

module _ (parse_prefix : Bytes → Option Prefix) where
  -- The cases of the switch but the first.
  unfoldable pub set_field : Bytes → Bytes → PeerStatus → PeerStatus
  set_field key val p =
      if equal key (codes "endpoint")
      then record p { endpoint = val }
      else if equal key (codes "allowed_ip")
      then record p { allowed_ips = add_prefix (parse_prefix val) p.allowed_ips }
      else if equal key (codes "tx_bytes")
      then record p { tx_bytes = parse_uint val }
      else if equal key (codes "rx_bytes")
      then record p { rx_bytes = parse_uint val }
      else if equal key (codes "last_handshake_time_sec")
      then record p { last_handshake = handshake_time (atoi val) p.last_handshake }
      else p

  unfoldable pub read_line : List PeerStatus → Bytes → List PeerStatus
  read_line peers line = elim (cut line b'=') [
    | none ↦ peers
    | some (key, val) ↦
        if equal key (codes "public_key")
        then peers ++ new_peer ∷ []
        else update_last (set_field key val) peers
  ]

  unfoldable pub read_lines : List PeerStatus → List Bytes → List PeerStatus
  read_lines peers [] = peers
  read_lines peers (line ∷ lines) = read_lines (read_line peers line) lines

  unfoldable pub parse_peer_statuses : Bytes → List PeerStatus
  parse_peer_statuses raw = read_lines [] (split raw (b'\n' ∷ []))

  -- `peerStatuses`, on what `IpcGet` gives, if it does not fail.
  unfoldable pub peer_statuses : Option Bytes → Option (List PeerStatus)
  peer_statuses none = none
  peer_statuses (some raw) = some (parse_peer_statuses raw)
