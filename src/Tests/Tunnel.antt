-- ===== src/Tests/Tunnel.antt =====
-- `startTunnel` (tunnel_darwin.go).
use vpnproxy.Base.{true, false, [], ◌∷◌, some, ◌≡◌, refl, codes}
use vpnproxy.Tunnel.{
  inet, creates_tun, closes_tun, runs_ifconfig, adds_route, makes_device, sets_config, brings_up,
  closes_device, not_configured, no_handshake, failed, Results, assign, configure_interface,
  raise_device, choose_bind, start_tunnel,
}
use vpnproxy.Tunnel.Closed.{nothing, Ends, start_tunnel-Ends}

-- No peer answers.
abbrev pub silent : Results
silent = record {
  parses = true;
  builds = true;
  creates = true;
  name = some (codes "utun4");
  ifconfig = λ a. true;
  route = λ f. true;
  interface = λ n. some 9;
  sets = true;
  comes_up = true;
  handshake = false;
}

device_closed : start_tunnel silent (codes "en0") ((10 ∷ 2 ∷ 0 ∷ 2 ∷ []) ∷ []) ≡ (
  creates_tun
      ∷ runs_ifconfig (10 ∷ 2 ∷ 0 ∷ 2 ∷ [])
      ∷ adds_route inet
      ∷ makes_device (some 9)
      ∷ sets_config
      ∷ brings_up
      ∷ closes_device
      ∷ [],
  failed no_handshake,
)
unfolding start_tunnel configure_interface assign choose_bind raise_device
device_closed = refl

tun_closed : start_tunnel (record silent { route = λ f. false }) [] ((10 ∷ 2 ∷ 0 ∷ 2 ∷ []) ∷ []) ≡ (
  creates_tun ∷ runs_ifconfig (10 ∷ 2 ∷ 0 ∷ 2 ∷ []) ∷ adds_route inet ∷ closes_tun ∷ [],
  failed not_configured,
)
unfolding start_tunnel configure_interface assign
tun_closed = refl

start_tunnel-Ends_example :
    Ends nothing (start_tunnel silent (codes "en0") ((10 ∷ 2 ∷ 0 ∷ 2 ∷ []) ∷ []))
start_tunnel-Ends_example = start_tunnel-Ends silent (codes "en0") ((10 ∷ 2 ∷ 0 ∷ 2 ∷ []) ∷ [])
