-- ===== src/Wireguard/Describe.antt =====
-- `describePeers` and `routeInterface` of wireguard.go: the state of the tunnel, as a line of text.
use vpnproxy.Base.{
  ℕ, Bool, true, false, List, [], ◌∷◌, ◌++◌, Option, none, some, Bytes, codes, if◌then◌else◌,
}
use vpnproxy.Go.Text.{equal, join_text}
use vpnproxy.Go.Strconv.{itoa}
use vpnproxy.Resolver.Ip.{Ip, to4}
use vpnproxy.Wireguard.{PeerStatus}

-- `net.IP.Equal`: an IPv4 address equals itself mapped into IPv6.
unfoldable pub ip_equal : Ip → Ip → Bool
ip_equal a b = elim (to4 a) [
  | some a4 ↦ elim (to4 b) [ some b4 ↦ equal a4 b4 | none ↦ false ]
  | none ↦ elim (to4 b) [ some b4 ↦ false | none ↦ equal a b ]
]

-- An interface, with its addresses; `none` is one that is no `*net.IPNet`.
pub record Interface : Type 0 where
  pub name : Bytes
  pub addrs : List (Option Ip)

-- The dial of the endpoint: the source address that the system chose, or the text of the error.
pub data Dialed : Type 0 where
  from_source : Ip → Dialed
  not_dialed : Bytes → Dialed

unfoldable pub has_addr : Ip → List (Option Ip) → Bool
has_addr src [] = false
has_addr src (none ∷ as') = has_addr src as'
has_addr src (some a ∷ as') = let rest = has_addr src as' in if ip_equal a src then true else rest

-- The first interface with the address.
unfoldable pub find_interface : Ip → List Interface → Option Bytes
find_interface src [] = none
find_interface src (i ∷ is) =
    let rest = find_interface src is in if has_addr src i.addrs then some i.name else rest

module _ (show_ip : Ip → Bytes) (dial : Bytes → Dialed) (interfaces : List Interface) where
  unfoldable pub route_from : Dialed → Bytes
  route_from (not_dialed err) = codes "unknown (" ++ (err ++ codes ")")
  route_from (from_source src) = elim (find_interface src interfaces) [
    | some name ↦ name ++ (codes ", src " ++ show_ip src)
    | none ↦ codes "unknown interface, src " ++ show_ip src
  ]

  abbrev pub route_interface : Bytes → Bytes
  route_interface endpoint = route_from (dial endpoint)

  -- `since secs` is the text of the time since then, rounded to seconds.
  module _ (since : ℕ → Bytes) where
    abbrev pub age : Option ℕ → Bytes
    age none = codes "never"
    age (some secs) = since secs ++ codes " ago"

    unfoldable pub describe_peer : PeerStatus → Bytes
    describe_peer p =
        codes "peer "
        ++ (p.endpoint
            ++ (codes " (route via "
                ++ (route_interface p.endpoint
                    ++ (codes "): last handshake "
                        ++ (age p.last_handshake
                            ++ (codes ", tx "
                                ++ (itoa p.tx_bytes
                                    ++ (codes " bytes, rx "
                                        ++ (itoa p.rx_bytes ++ codes " bytes")))))))))

    unfoldable pub describe_all : List PeerStatus → List Bytes
    describe_all [] = []
    describe_all (p ∷ ps) = describe_peer p ∷ describe_all ps

    -- `describePeers`, on the result of `peerStatuses`, or the text of its error.
    unfoldable pub describe_peers : Bytes → Option (List PeerStatus) → Bytes
    describe_peers err none = codes "peer status unavailable: " ++ err
    describe_peers err (some ps) = join_text (codes "; ") (describe_all ps)
