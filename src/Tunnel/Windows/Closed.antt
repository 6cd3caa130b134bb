-- ===== src/Tunnel/Windows/Closed.antt =====
-- What the set-up of a Wintun adapter has open (tunnel_windows.go).
use vpnproxy.Base.{ℕ, Bool, true, false, not, List, [], ◌∷◌, refl, inl, inr, Bool-cases}
use vpnproxy.Resolver.Ip.{Ip}
use vpnproxy.Tunnel.{
  Family, inet, inet6, creates_tun, closes_tun, sets_addresses, adds_route, brings_up, logs_peers,
  closes_device, bad_conf, bad_request, no_tun, not_native, no_interface, not_set, not_up,
  no_handshake, started, Steps, did, or_close, or_fail, some_or_close, and_then, any_family,
  one_call, configured_or_close,
}
use vpnproxy.Tunnel.Closed.{
  nothing, tun, device, Ends, KeepsTun, or_close-Ends, or_fail-Ends, some_or_close-Ends,
  and_then-KeepsTun, configured_or_close-Ends,
}
use vpnproxy.Tunnel.Windows.{
  is6, prefixes, Adapter, set_interface_mtu, family_if, configure_adapter, Results, raise_adapter,
  start_adapter,
}

module _ (adapter : Adapter) (mtu : ℕ) where
  set_interface_mtu-KeepsTun : (f : Family) → KeepsTun (set_interface_mtu adapter mtu f)
  unfolding set_interface_mtu
  set_interface_mtu-KeepsTun f = elim (Bool-cases (adapter.ip_interface f)) [
    | inl e ↦ rw e refl
    | inr e ↦ rw e refl
  ]

  family_if-KeepsTun : (b : Bool) (f : Family) → KeepsTun (family_if adapter mtu b f)
  family_if-KeepsTun false f = refl
  family_if-KeepsTun true f =
      and_then-KeepsTun (set_interface_mtu adapter mtu f)
        (one_call (adds_route f) (adapter.route f)) (set_interface_mtu-KeepsTun f) refl

  configure_adapter-KeepsTun : (addrs : List Ip) → KeepsTun (configure_adapter adapter mtu addrs)
  unfolding configure_adapter
  configure_adapter-KeepsTun addrs =
      let four = family_if adapter mtu (any_family (λ a. not (is6 a)) addrs) inet in
      let six = family_if adapter mtu (any_family is6 addrs) inet6 in
      and_then-KeepsTun (one_call (sets_addresses (prefixes addrs)) adapter.assigns)
        (and_then four six) refl
        (and_then-KeepsTun four six (family_if-KeepsTun (any_family (λ a. not (is6 a)) addrs) inet)
          (family_if-KeepsTun (any_family is6 addrs) inet6))

raise_adapter-Ends : (env : Results) (index : ℕ) → Ends tun (raise_adapter env index)
unfolding raise_adapter
raise_adapter-Ends env index =
    let last : Steps = (logs_peers ∷ [], started index) in
    let waited : Steps = or_close env.handshake closes_device no_handshake last in
    let raised : Steps = did brings_up (or_close env.comes_up closes_device not_up waited) in
    or_close-Ends device env.sets closes_device not_set raised refl (
      or_close-Ends device env.comes_up closes_device not_up waited refl
        (or_close-Ends device env.handshake closes_device no_handshake last refl refl))

-- On Windows too, whatever fails in the set-up of a tunnel, what was opened is closed, once and in a
-- fitting order: the Wintun adapter alone, or with the device that has taken it over. A tunnel that has
-- started has its device open.
pub start_adapter-Ends :
    (env : Results) (mtu : ℕ) (addrs : List Ip) → Ends nothing (start_adapter env mtu addrs)
unfolding start_adapter
start_adapter-Ends env mtu addrs =
    let calls = configure_adapter env.adapter mtu addrs in
    let looked : Steps = some_or_close env.index closes_tun no_interface (raise_adapter env) in
    let named : Steps =
      or_close env.is_native closes_tun not_native (configured_or_close calls looked) in
    let created : Steps = did creates_tun named in
    or_fail-Ends env.parses bad_conf
      (or_fail env.builds bad_request (or_fail env.creates no_tun created))
      (or_fail-Ends env.builds bad_request (or_fail env.creates no_tun created) (
        or_fail-Ends env.creates no_tun created (
          or_close-Ends tun env.is_native closes_tun not_native (configured_or_close calls looked)
            refl
            (configured_or_close-Ends calls looked
              (configure_adapter-KeepsTun env.adapter mtu addrs)
              (some_or_close-Ends env.index no_interface (raise_adapter env)
                (raise_adapter-Ends env))))))
