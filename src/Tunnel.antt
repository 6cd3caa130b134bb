-- ===== src/Tunnel.antt =====
-- `startTunnel` and `configureInterface` of tunnel_darwin.go: the calls that the set-up of a tunnel makes,
-- in order. What the calls of the operating system and of wireguard-go give is a parameter. The events
-- and the handling of errors are those of tunnel_windows.go too.
pub mod Closed
pub mod Windows
use vpnproxy.Base.{
  ℕ, Bool, true, false, ◌||◌, not, List, [], ◌∷◌, ◌++◌, Option, none, some, Bytes, ◌==◌, length,
}
use vpnproxy.Resolver.Ip.{Ip}

pub data Family : Type 0 where
  inet inet6 : Family

-- The calls that change something. `makes_device` takes the tun device over, with the interface that the
-- bind is tied to, if any.
pub data Event : Type 0 where
  creates_tun closes_tun : Event
  runs_ifconfig : Ip → Event
  sets_addresses : List (Ip × ℕ) → Event
  sets_mtu : Family → ℕ → Event
  adds_route : Family → Event
  makes_device : Option ℕ → Event
  sets_config brings_up logs_peers closes_device : Event

pub data Failure : Type 0 where
  bad_conf bad_request no_tun unnamed not_native not_configured no_interface no_bind_interface
        not_set not_up no_handshake :
      Failure

-- The index of the interface of the tunnel, or why there is none.
pub data Started : Type 0 where
  started : ℕ → Started
  failed : Failure → Started

abbrev pub Steps : Type 0
Steps = List Event × Started

abbrev pub did : Event → Steps → Steps
did e (es, r) = (e ∷ es, r)

-- `if err != nil { <close>; return nil, err }`, and without a close.
abbrev pub or_close : Bool → Event → Failure → Steps → Steps
or_close true close why next = next
or_close false close why next = (close ∷ [], failed why)

abbrev pub or_fail : Bool → Failure → Steps → Steps
or_fail true why next = next
or_fail false why next = ([], failed why)

abbrev pub some_or_close {ℓ} : {A : Type ℓ} → Option A → Event → Failure → (A → Steps) → Steps
some_or_close none close why next = (close ∷ [], failed why)
some_or_close (some a) close why next = next a

-- Calls one behind the other, up to the first that fails.
abbrev pub and_then : List Event × Bool → List Event × Bool → List Event × Bool
and_then (es, true) (fs, b) = (es ++ fs, b)
and_then (es, false) _ = (es, false)

abbrev pub is4 : Ip → Bool
is4 a = length a == 4

abbrev pub any_family : (Ip → Bool) → List Ip → Bool
any_family test [] = false
any_family test (a ∷ as') = test a || any_family test as'

abbrev pub one_call : Event → Bool → List Event × Bool
one_call e done = (e ∷ [], done)

module _ (ifconfig : Ip → Bool) (route : Family → Bool) where
  unfoldable pub assign : List Ip → List Event × Bool
  assign [] = ([], true)
  assign (a ∷ as') = and_then (one_call (runs_ifconfig a) (ifconfig a)) (assign as')

  abbrev pub route_if : Bool → Family → List Event × Bool
  route_if false family = ([], true)
  route_if true family = one_call (adds_route family) (route family)

  unfoldable pub configure_interface : List Ip → List Event × Bool
  configure_interface addrs = and_then (assign addrs) (
      and_then (route_if (any_family is4 addrs) inet)
        (route_if (any_family (λ a. not (is4 a)) addrs) inet6))

-- A failed `configureInterface` closes the tun device.
abbrev pub configured_or_close : List Event × Bool → Steps → Steps
configured_or_close (es, true) (fs, r) = (es ++ fs, r)
configured_or_close (es, false) _ = (es ++ closes_tun ∷ [], failed not_configured)

-- The results of the calls.
pub record Results : Type 0 where
  pub parses : Bool
  pub builds : Bool
  pub creates : Bool
  pub name : Option Bytes
  pub ifconfig : Ip → Bool
  pub route : Family → Bool
  pub interface : Bytes → Option ℕ
  pub sets : Bool
  pub comes_up : Bool
  pub handshake : Bool

-- From the device on.
unfoldable pub raise_device : Results → ℕ → Option ℕ → Steps
raise_device env index bind = did (makes_device bind) (
    did sets_config (
      or_close env.sets closes_device not_set (
        did brings_up (
          or_close env.comes_up closes_device not_up
            (or_close env.handshake closes_device no_handshake (logs_peers ∷ [], started index))))))

-- The default bind, or one that is tied to the interface of -bind-iface.
unfoldable pub choose_bind : Results → ℕ → Bytes → Steps
choose_bind env index [] = raise_device env index none
choose_bind env index (c ∷ bind_iface) =
    some_or_close (env.interface (c ∷ bind_iface)) closes_tun no_bind_interface
      λ i. raise_device env index (some i)

unfoldable pub start_tunnel : Results → Bytes → List Ip → Steps
start_tunnel env bind_iface addrs = or_fail env.parses bad_conf (
    or_fail env.builds bad_request (
      or_fail env.creates no_tun (
        did creates_tun (
          some_or_close env.name closes_tun unnamed λ name.
            configured_or_close (configure_interface env.ifconfig env.route addrs) (
              some_or_close (env.interface name) closes_tun no_interface
                λ index. choose_bind env index bind_iface)))))
