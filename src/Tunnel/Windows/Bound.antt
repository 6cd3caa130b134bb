-- ===== src/Tunnel/Windows/Bound.antt =====
-- `boundControl` and `isIPv6Network` of tunnel_windows.go, and `boundControl` of tunnel_darwin.go: the
-- socket option that ties a socket to an interface. Windows runs on little-endian machines only.
pub mod Agrees
use vpnproxy.Base.{
  ℕ, ◌+◌, ◌*◌, ◌/◌, ◌%◌, ◌^◌, Bool, true, false, ◌&&◌, ◌||◌, List, [], ◌∷◌, Bytes, ◌==◌,
  if◌then◌else◌,
}
use vpnproxy.Tunnel.{Family, inet, inet6}

-- The level and name of the option, which its family gives, and its value, as the 32 bits of an `int32`.
pub record SocketOption : Type 0 where
  pub family : Family
  pub value : ℕ

-- `len(network) > 0 && network[len(network)-1] == '6'`
unfoldable pub is_ipv6_network : Bytes → Bool
is_ipv6_network [] = false
is_ipv6_network (c ∷ []) = c == b'6'
is_ipv6_network (c ∷ d ∷ s) = is_ipv6_network (d ∷ s)

-- `strings.Contains(network, "6")`
unfoldable pub contains_6 : Bytes → Bool
contains_6 [] = false
contains_6 (c ∷ s) = c == b'6' || contains_6 s

-- `binary.BigEndian.PutUint32`
unfoldable pub put_uint32 : ℕ → Bytes
put_uint32 v = (v / 16_777_216 % 256) ∷ (v / 65_536 % 256) ∷ (v / 256 % 256) ∷ (v % 256) ∷ []

-- `*(*uint32)(unsafe.Pointer(&be[0]))`: the bytes as the machine reads them.
unfoldable pub load_uint32 : Bytes → ℕ
load_uint32 (a ∷ b ∷ c ∷ d ∷ s) = a + b * 256 + c * 65_536 + d * 16_777_216
load_uint32 _ = 0

-- The bytes of the value that `setsockopt` is given the address of.
unfoldable pub store_uint32 : ℕ → Bytes
store_uint32 v = (v % 256) ∷ (v / 256 % 256) ∷ (v / 65_536 % 256) ∷ (v / 16_777_216 % 256) ∷ []

unfoldable pub bound_option : Bytes → ℕ → SocketOption
bound_option network if_index =
    if is_ipv6_network network
    then record { family = inet6; value = if_index % 2 ^ 32 }
    else record { family = inet; value = load_uint32 (put_uint32 (if_index % 2 ^ 32)) }

unfoldable pub bound_option_darwin : Bytes → ℕ → SocketOption
bound_option_darwin network if_index =
    if contains_6 network
    then record { family = inet6; value = if_index % 2 ^ 32 }
    else record { family = inet; value = if_index % 2 ^ 32 }

-- `boundControl`: an error of `Control`, which then sets nothing, comes before that of `setsockopt`.
unfoldable pub bound_control : (SocketOption → Bool) → Bool → Bytes → ℕ → Bool
bound_control setsockopt control network if_index =
    if control then setsockopt (bound_option network if_index) else false
