-- ===== src/Tests/Windows.antt =====
-- A Wintun adapter whose set-up fails half-way, and the socket option (tunnel_windows.go).
use vpnproxy.Base.{◌%◌, ◌^◌, true, false, [], ◌∷◌, some, ◌≡◌, refl, codes}
use vpnproxy.Tunnel.{inet, inet6, sets_mtu}
use vpnproxy.Tunnel.Closed.{nothing, Ends}
use vpnproxy.Tunnel.Windows.{Adapter, set_interface_mtu, Results, start_adapter}
use vpnproxy.Tunnel.Windows.Closed.{start_adapter-Ends}
use vpnproxy.Tunnel.Windows.Bound.{
  is_ipv6_network, put_uint32, load_uint32, store_uint32, bound_option, bound_option_darwin,
  bound_control,
}
use vpnproxy.Tunnel.Windows.Bound.Agrees.{bound_option_agrees}

-- No route can be added.
abbrev adapter : Adapter
adapter = record { assigns = true; ip_interface = λ f. true; set = λ f. true; route = λ f. false }

abbrev env : Results
env = record {
  parses = true;
  builds = true;
  creates = true;
  is_native = true;
  adapter = adapter;
  index = some 7;
  sets = true;
  comes_up = true;
  handshake = true;
}

start_adapter-Ends_example : Ends nothing (start_adapter env 1420 ((10 ∷ 0 ∷ 0 ∷ 2 ∷ []) ∷ []))
start_adapter-Ends_example = start_adapter-Ends env 1420 ((10 ∷ 0 ∷ 0 ∷ 2 ∷ []) ∷ [])

set_mtu : set_interface_mtu adapter 4_294_967_297 inet ≡ ((sets_mtu inet 1 ∷ []), true)
unfolding set_interface_mtu
set_mtu = refl

bound_runs : bound_control (λ o. true) true (codes "udp6") 7 ≡ true
unfolding bound_control bound_option is_ipv6_network
bound_runs = refl

bound_value : (bound_option (codes "tcp4") 7).value ≡ 117_440_512
unfolding bound_option is_ipv6_network load_uint32 put_uint32
bound_value = refl

bound_option_agrees_example :
    ((bound_option (codes "tcp4") 7).family ≡ (bound_option_darwin (codes "tcp4") 7).family)
    × ((bound_option_darwin (codes "tcp4") 7).value ≡ 7 % 2 ^ 32)
    × ((bound_option (codes "tcp4") 7).family ≡ inet6
        → (bound_option (codes "tcp4") 7).value ≡ 7 % 2 ^ 32)
    × ((bound_option (codes "tcp4") 7).family ≡ inet
        → store_uint32 (bound_option (codes "tcp4") 7).value ≡ put_uint32 (7 % 2 ^ 32))
bound_option_agrees_example = bound_option_agrees (codes "tcp4") 7 (refl, (refl, (refl, tt)))
