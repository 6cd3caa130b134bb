-- ===== src/Resolver/Ip.antt =====
-- net.IP and netip.Addr as the resolver tests them: the bytes of an address, 4 or 16.
use vpnproxy.Base.{
  Bool, true, false, ◌&&◌, [], ◌∷◌, Option, none, some, Bytes, ◌==◌, if◌then◌else◌, length, drop,
  replicate, ◌++◌,
}
use vpnproxy.Go.Text.{equal, has_prefix}

abbrev pub Ip : Type 0
Ip = Bytes

-- `ip.To4()`, `ip.Unmap()`: an IPv4 address, as such or mapped into IPv6.
unfoldable pub to4 : Ip → Option Ip
unfolding has_prefix
to4 ip =
    if length ip == 4
    then some ip
    else if length ip == 16 && has_prefix ip (replicate 10 0 ++ (0xff ∷ 0xff ∷ []))
    then some (drop 12 ip)
    else none

abbrev pub loopback6 : Ip
loopback6 = replicate 15 0 ++ (1 ∷ [])

starts_127 : Ip → Bool
starts_127 [] = false
starts_127 (a ∷ ip) = a == 127

unfoldable pub is_loopback : Ip → Bool
unfolding starts_127 to4 equal
is_loopback ip = elim (to4 ip) [ some four ↦ starts_127 four | none ↦ equal ip loopback6 ]

-- `ip.Unmap().Is4()`
unfoldable pub is_ipv4 : Ip → Bool
unfolding to4
is_ipv4 ip = elim (to4 ip) [ some four ↦ true | none ↦ false ]
