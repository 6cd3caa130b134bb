-- ===== src/Tunnel/Windows.antt =====
-- `startTunnel` and `configureInterface` of tunnel_windows.go: the same set-up for a Wintun adapter. What
-- the calls of Windows and of wireguard-go give is a parameter.
pub mod Closed
pub mod Bound
use vpnproxy.Base.{
  ℕ, ◌%◌, ◌^◌, Bool, true, false, not, List, [], ◌∷◌, Option, none, some, ◌==◌, if◌then◌else◌,
  length,
}
use vpnproxy.Resolver.Ip.{Ip}
use vpnproxy.Tunnel.{
  Family, inet, inet6, Event, creates_tun, closes_tun, sets_addresses, sets_mtu, adds_route,
  makes_device, sets_config, brings_up, logs_peers, closes_device, bad_conf, bad_request, no_tun,
  not_native, no_interface, not_set, not_up, no_handshake, started, Steps, did, or_close, or_fail,
  some_or_close, and_then, any_family, one_call, configured_or_close,
}

-- `netip.Addr.Is6`.
abbrev pub is6 : Ip → Bool
is6 a = length a == 16

-- `bits := 32; if a.Is6() { bits = 128 … }; netip.PrefixFrom(a, bits)`
unfoldable pub prefixes : List Ip → List (Ip × ℕ)
prefixes [] = []
prefixes (a ∷ as') = (a, if is6 a then 128 else 32) ∷ prefixes as'

-- The results of the calls on the adapter: of SetIPAddresses, and, for each family, of IPInterface,
-- of Set and of AddRoute.
pub record Adapter : Type 0 where
  pub assigns : Bool
  pub ip_interface : Family → Bool
  pub set : Family → Bool
  pub route : Family → Bool

module _ (adapter : Adapter) (mtu : ℕ) where
  -- `iface.NLMTU = uint32(mtu)`
  unfoldable pub set_interface_mtu : Family → List Event × Bool
  set_interface_mtu family =
      if adapter.ip_interface family
      then one_call (sets_mtu family (mtu % 2 ^ 32)) (adapter.set family)
      else ([], false)

  abbrev pub family_if : Bool → Family → List Event × Bool
  family_if false family = ([], true)
  family_if true family =
      and_then (set_interface_mtu family) (one_call (adds_route family) (adapter.route family))

  unfoldable pub configure_adapter : List Ip → List Event × Bool
  configure_adapter addrs = and_then (one_call (sets_addresses (prefixes addrs)) adapter.assigns) (
      and_then (family_if (any_family (λ a. not (is6 a)) addrs) inet)
        (family_if (any_family is6 addrs) inet6))

-- The results of the other calls; `index` is what `luid.Interface` gives.
pub record Results : Type 0 where
  pub parses : Bool
  pub builds : Bool
  pub creates : Bool
  pub is_native : Bool
  pub adapter : Adapter
  pub index : Option ℕ
  pub sets : Bool
  pub comes_up : Bool
  pub handshake : Bool

-- From the device on, with the default bind.
unfoldable pub raise_adapter : Results → ℕ → Steps
raise_adapter env index = did (makes_device none) (
    did sets_config (
      or_close env.sets closes_device not_set (
        did brings_up (
          or_close env.comes_up closes_device not_up
            (or_close env.handshake closes_device no_handshake (logs_peers ∷ [], started index))))))

unfoldable pub start_adapter : Results → ℕ → List Ip → Steps
start_adapter env mtu addrs = or_fail env.parses bad_conf (
    or_fail env.builds bad_request (
      or_fail env.creates no_tun (
        did creates_tun (
          or_close env.is_native closes_tun not_native (
            configured_or_close (configure_adapter env.adapter mtu addrs) (
              some_or_close env.index closes_tun no_interface λ index. raise_adapter env index))))))
