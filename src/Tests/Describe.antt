-- ===== src/Tests/Describe.antt =====
-- `describePeers` and `routeInterface` (wireguard.go, wireguard_test.go), and `configDirUsage` and the
-- command list (config.go).
use vpnproxy.Base.{true, List, [], ◌∷◌, none, some, ◌≡◌, refl, Bytes, codes, ◌==◌, not}
use vpnproxy.Go.Text.{equal, join_text, has_prefix}
use vpnproxy.Go.Strconv.{itoa, digits}
use vpnproxy.Resolver.Ip.{Ip, to4}
use vpnproxy.Wireguard.{PeerStatus, new_peer}
use vpnproxy.Wireguard.Describe.{
  Interface, Dialed, from_source, ip_equal, has_addr, find_interface, route_from, route_interface,
  describe_peer, describe_all, describe_peers,
}
use vpnproxy.Config.{config_dirs}
use vpnproxy.Config.Regions.Listed.{Lists}
use vpnproxy.Config.Command.Printed.{Prints, list_command-Prints}
use vpnproxy.Config.Regions.{Regions, is_given, listed, unlisted}
use vpnproxy.Config.Command.{
  not_printed, not_listed, list_flags, list_bad_count, add_paths, config_dir_usage, print_lines,
  print_regions, list_command,
}
use vpnproxy.Tests.Config.{join, read_dir}

abbrev show_ip : Ip → Bytes
show_ip ip = codes "127.0.0.1"

-- The loopback interface has the address, mapped into IPv6.
abbrev interfaces : List Interface
interfaces =
    (record { name = codes "en0"; addrs = none ∷ some (10 ∷ 0 ∷ 0 ∷ 9 ∷ []) ∷ [] })
    ∷ (record {
      name = codes "lo0";
      addrs = some (0 ∷ 0 ∷ 0 ∷ 0 ∷ 0 ∷ 0 ∷ 0 ∷ 0 ∷ 0 ∷ 0 ∷ 255 ∷ 255 ∷ 127 ∷ 0 ∷ 0 ∷ 1 ∷ []) ∷ [];
    })
    ∷ []

abbrev dial : Bytes → Dialed
dial endpoint = from_source (127 ∷ 0 ∷ 0 ∷ 1 ∷ [])

loopback :
    route_interface show_ip dial interfaces (codes "127.0.0.1:51820") ≡ codes "lo0, src 127.0.0.1"
unfolding route_from find_interface has_addr ip_equal to4 has_prefix equal
loopback = refl

abbrev peer : PeerStatus
peer = record new_peer { endpoint = codes "p"; tx_bytes = 12; rx_bytes = 3 }

described :
    describe_peers show_ip dial []
      (λ secs. codes "5s")
      []
      (some (peer ∷ record peer { last_handshake = some 7 } ∷ []))
    ≡ codes
        "peer p (route via unknown interface, src 127.0.0.1): last handshake never, tx 12 bytes, rx 3 bytes; peer p (route via unknown interface, src 127.0.0.1): last handshake 5s ago, tx 12 bytes, rx 3 bytes"
unfolding describe_peers describe_all describe_peer route_from find_interface join_text itoa digits
described = refl

usage :
    config_dir_usage join (some (codes "/u"))
    ≡ codes "directory containing <region>.conf (default: ./<region>.conf then /u/<region>.conf)"
unfolding config_dir_usage add_paths
usage = refl

-- The second line cannot be written.
cut_short :
    print_regions (λ i. not (i == 1)) (listed (codes "br" ∷ codes "fr" ∷ codes "us" ∷ []))
    ≡ (codes "br" ∷ [], not_printed)
unfolding print_regions print_lines
cut_short = refl

with_argument :
    list_command (λ i. true) read_dir none (list_flags [] (codes "x" ∷ [])) ≡ ([], list_bad_count 1)
unfolding list_command
with_argument = refl

unreadable_dir : print_regions (λ i. true) (unlisted (codes "/u")) ≡ ([], not_listed (codes "/u"))
unfolding print_regions
unreadable_dir = refl

list_command-Prints_example :
    (found : Regions) × Lists read_dir (is_given []) (config_dirs none []) found
    × Prints (λ i. true) found (list_command (λ i. true) read_dir none (list_flags [] []))
list_command-Prints_example = list_command-Prints (λ i. true) read_dir none []
