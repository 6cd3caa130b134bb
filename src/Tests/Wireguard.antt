-- ===== src/Tests/Wireguard.antt =====
-- `parsePeerStatuses`, `logPeerStatus` and `waitForHandshake` (wireguard.go, wireguard_test.go).
use vpnproxy.Base.{
  ℕ, zero, suc, ◌+◌, ◌*◌, true, false, List, [], ◌∷◌, ◌++◌, map, Option, some, ◌≡◌, ◌↔◌, refl,
  arith, Bytes, codes, Memᴰ, All,
}
use vpnproxy.Go.Text.{equal}
use vpnproxy.Wireguard.{Prefix, PeerStatus, new_peer, parse_peer_statuses}
use vpnproxy.Wireguard.Report.{Field, field, text, IsField, Report, reports, status, IsReport}
use vpnproxy.Wireguard.Status.{parse_peer_statuses-reports}
use vpnproxy.Wireguard.Peers.{Addr, uncovered, prefix_contains, log_peer_status}
use vpnproxy.Wireguard.Covered.{IsUncovered, log_peer_status-uncovered}
use vpnproxy.Wireguard.Handshake.{pause}

abbrev ten : Prefix
ten = record { ip = 10 ∷ 2 ∷ 0 ∷ 0 ∷ []; bits = 12 }

abbrev parse_prefix : Bytes → Option Prefix
parse_prefix s = some ten

within : prefix_contains ten (record { ip = 10 ∷ 15 ∷ 1 ∷ 1 ∷ []; zone = [] }) ≡ true
unfolding prefix_contains
within = refl

outside : prefix_contains ten (record { ip = 10 ∷ 16 ∷ 1 ∷ 1 ∷ []; zone = [] }) ≡ false
unfolding prefix_contains
outside = refl

abbrev device : List Field
device = field (codes "private_key") (codes "ab") ∷ field (codes "listen_port") (codes "51820") ∷ []

device-IsField : All IsField device
unfolding equal
device-IsField = (
  record { key_ends = omega arith; no_peer = refl; one_line = omega arith },
  (record { key_ends = omega arith; no_peer = refl; one_line = omega arith }, tt),
)

abbrev report : Report
report = record {
  public_key = codes "cd";
  preshared_key = codes "00";
  endpoint = some (codes "203.0.113.10:51820");
  seconds = 1700000000;
  nanoseconds = 5;
  tx = 148;
  rx = 92;
  keepalive = 25;
  allowed = (record { cidr = codes "10.2.0.0/12"; prefix = ten }) ∷ [];
}

report-IsReport : IsReport parse_prefix report
report-IsReport = record {
  key_line = omega arith;
  preshared_line = omega arith;
  endpoint_line = omega arith;
  seconds_size = omega arith;
  tx_size = omega arith;
  rx_size = omega arith;
  allowed_lines = ((omega arith, refl), tt);
}

parse_peer_statuses-reports_example :
    parse_peer_statuses parse_prefix (text (device ++ reports (report ∷ [])))
    ≡ map status (report ∷ [])
parse_peer_statuses-reports_example =
    parse_peer_statuses-reports parse_prefix device (report ∷ []) device-IsField
      (report-IsReport, tt)

abbrev dns : Addr
dns = record { ip = 10 ∷ 2 ∷ 0 ∷ 1 ∷ []; zone = [] }

-- The first peer covers the server, the second one allows nothing.
abbrev peers : List PeerStatus
peers = status report ∷ new_peer ∷ []

log_peer_status-uncovered_example :
    Memᴰ (uncovered dns) (log_peer_status (some peers) (dns ∷ []))
    ↔ IsUncovered peers (dns ∷ []) dns
log_peer_status-uncovered_example = log_peer_status-uncovered peers (dns ∷ []) dns

abbrev statuses : ℕ → Option (List PeerStatus)
statuses zero = some (new_peer ∷ [])
statuses (suc i) = some peers

abbrev clock : ℕ → ℕ
clock i = 7 + i * pause
