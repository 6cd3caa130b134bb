-- ===== src/Resolver/Literal.antt =====
-- The first part of `Resolve` of resolver.go: a host that is an address already, and the cache key of
-- one that is a name.
pub mod Cases
use vpnproxy.Base.{
  ℕ, Bool, true, false, not, ◌&&◌, [], ◌∷◌, map, Option, none, some, Bytes, ltb, if◌then◌else◌,
}
use vpnproxy.Go.Text.{lower}
use vpnproxy.Resolver.Ip.{Ip, is_loopback, is_ipv4}

pub data Target : Type 0 where
  address : Bytes → Target
  loopback_target ipv6_target : Target
  name : Bytes → Target

unfoldable pub is_ascii : Bytes → Bool
is_ascii [] = true
is_ascii (c ∷ s) = ltb c 128 && is_ascii s

-- `strings.ToLower`: the case tables of Unicode are a parameter, and are not used on ASCII.
unfoldable pub to_lower : (Bytes → Bytes) → Bytes → Bytes
unfolding is_ascii
to_lower unicode_lower s = if is_ascii s then map lower s else unicode_lower s

-- `netip.ParseAddr` is a parameter.
unfoldable pub literal : (Bytes → Option Ip) → (Bytes → Bytes) → Bool → Bytes → Target
literal parse_addr unicode_lower ipv4_only host = elim (parse_addr host) [
  | none ↦ name (to_lower unicode_lower host)
  | some ip ↦
      if is_loopback ip
      then loopback_target
      else if ipv4_only && not (is_ipv4 ip)
      then ipv6_target
      else address host
]
