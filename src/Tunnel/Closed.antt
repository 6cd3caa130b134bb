-- ===== src/Tunnel/Closed.antt =====
-- What the set-up of a tunnel has open (tunnel_darwin.go).
use vpnproxy.Base.{
  ℕ, Bool, true, false, not, List, [], ◌∷◌, ◌++◌, Option, none, some, ◌≡◌, refl, ap, ◌∙◌, Bytes,
}
use vpnproxy.Resolver.Ip.{Ip}
use vpnproxy.Tunnel.{
  Family, inet, inet6, Event, creates_tun, closes_tun, runs_ifconfig, sets_addresses, sets_mtu,
  adds_route, makes_device, bad_conf, bad_request, no_tun, unnamed, no_interface, no_bind_interface,
  not_set, not_up, no_handshake, sets_config, brings_up, logs_peers, closes_device, Failure,
  Started, started, failed, Steps, did, or_close, or_fail, some_or_close, and_then, is4, any_family,
  one_call, assign, route_if, configure_interface, configured_or_close, Results, raise_device,
  choose_bind, start_tunnel,
}

-- What is open; `broken` is a call that does not fit: a second close, a device without its tun device.
pub data Held : Type 0 where
  nothing tun device broken : Held

abbrev pub after : Held → Event → Held
after nothing creates_tun = tun
after tun closes_tun = nothing
after tun (runs_ifconfig a) = tun
after tun (sets_addresses ps) = tun
after tun (sets_mtu f mtu) = tun
after tun (adds_route f) = tun
after tun (makes_device b) = device
after device sets_config = device
after device brings_up = device
after device logs_peers = device
after device closes_device = nothing
after _ _ = broken

abbrev pub held : Held → List Event → Held
held h [] = h
held h (e ∷ es) = held (after h e) es

-- A tunnel that has started holds its device, one that has not holds nothing.
abbrev pub left_open : Started → Held
left_open (started i) = device
left_open (failed why) = nothing

abbrev pub Ends : Held → Steps → Type 0
Ends h (es, r) = held h es ≡ left_open r

held-append : (h : Held) (es fs : List Event) → held h (es ++ fs) ≡ held (held h es) fs
held-append h [] fs = refl
held-append h (e ∷ es) fs = held-append (after h e) es fs

pub or_close-Ends :
    (h : Held) (b : Bool) (close : Event) (why : Failure) (s : Steps)
    → after h close ≡ nothing
    → Ends h s
    → Ends h (or_close b close why s)
or_close-Ends h true close why s e ends = ends
or_close-Ends h false close why s e ends = e

pub or_fail-Ends :
    (b : Bool) (why : Failure) (s : Steps) → Ends nothing s → Ends nothing (or_fail b why s)
or_fail-Ends true why s ends = ends
or_fail-Ends false why s ends = refl

pub some_or_close-Ends {ℓ} :
    {A : Type ℓ} (o : Option A) (why : Failure) (s : A → Steps)
    → ((a : A) → Ends tun (s a))
    → Ends tun (some_or_close o closes_tun why s)
some_or_close-Ends none why s ends = refl
some_or_close-Ends (some a) why s ends = ends a

-- Calls on the interface keep the tun device open.
abbrev pub KeepsTun : List Event × Bool → Type 0
KeepsTun (es, b) = held tun es ≡ tun

pub and_then-KeepsTun :
    (x y : List Event × Bool) → KeepsTun x → KeepsTun y → KeepsTun (and_then x y)
and_then-KeepsTun (es, true) (fs, b) h k = held-append tun es fs ∙ ap (λ x. held x fs) h ∙ k
and_then-KeepsTun (es, false) y h k = h

assign-KeepsTun :
    (ifconfig : Ip → Bool) (route : Family → Bool) (addrs : List Ip)
    → KeepsTun (assign ifconfig route addrs)
unfolding assign
assign-KeepsTun ifconfig route [] = refl
assign-KeepsTun ifconfig route (a ∷ as') =
    and_then-KeepsTun (one_call (runs_ifconfig a) (ifconfig a)) (assign ifconfig route as') refl
      (assign-KeepsTun ifconfig route as')

route_if-KeepsTun :
    (ifconfig : Ip → Bool) (route : Family → Bool) (b : Bool) (f : Family)
    → KeepsTun (route_if ifconfig route b f)
route_if-KeepsTun ifconfig route true f = refl
route_if-KeepsTun ifconfig route false f = refl

configure_interface-KeepsTun :
    (ifconfig : Ip → Bool) (route : Family → Bool) (addrs : List Ip)
    → KeepsTun (configure_interface ifconfig route addrs)
unfolding configure_interface
configure_interface-KeepsTun ifconfig route addrs =
    let four = route_if ifconfig route (any_family is4 addrs) inet in
    let six = route_if ifconfig route (any_family (λ a. not (is4 a)) addrs) inet6 in
    and_then-KeepsTun (assign ifconfig route addrs) (and_then four six)
      (assign-KeepsTun ifconfig route addrs)
      (and_then-KeepsTun four six (route_if-KeepsTun ifconfig route (any_family is4 addrs) inet)
        (route_if-KeepsTun ifconfig route (any_family (λ a. not (is4 a)) addrs) inet6))

pub configured_or_close-Ends :
    (x : List Event × Bool) (s : Steps)
    → KeepsTun x
    → Ends tun s
    → Ends tun (configured_or_close x s)
configured_or_close-Ends (es, true) (fs, r) h ends =
    held-append tun es fs ∙ ap (λ x. held x fs) h ∙ ends
configured_or_close-Ends (es, false) s h ends =
    held-append tun es (closes_tun ∷ []) ∙ ap (λ x. held x (closes_tun ∷ [])) h

pub raise_device-Ends :
    (env : Results) (index : ℕ) (bind : Option ℕ) → Ends tun (raise_device env index bind)
unfolding raise_device
raise_device-Ends env index bind =
    let last : Steps = (logs_peers ∷ [], started index) in
    let waited : Steps = or_close env.handshake closes_device no_handshake last in
    let raised : Steps = did brings_up (or_close env.comes_up closes_device not_up waited) in
    or_close-Ends device env.sets closes_device not_set raised refl (
      or_close-Ends device env.comes_up closes_device not_up waited refl
        (or_close-Ends device env.handshake closes_device no_handshake last refl refl))

choose_bind-Ends :
    (env : Results) (index : ℕ) (bind_iface : Bytes) → Ends tun (choose_bind env index bind_iface)
unfolding choose_bind
choose_bind-Ends env index [] = raise_device-Ends env index none
choose_bind-Ends env index (c ∷ bind_iface) =
    some_or_close-Ends (env.interface (c ∷ bind_iface)) no_bind_interface
      (λ i. raise_device env index (some i)) λ i. raise_device-Ends env index (some i)

-- Whatever fails in the set-up of a tunnel, what was opened is closed, once and in a fitting order:
-- the tun device alone, or with the device that has taken it over. A tunnel that has started has its
-- device open.
pub start_tunnel-Ends :
    (env : Results) (bind_iface : Bytes) (addrs : List Ip)
    → Ends nothing (start_tunnel env bind_iface addrs)
unfolding start_tunnel
start_tunnel-Ends env bind_iface addrs =
    let calls = configure_interface env.ifconfig env.route addrs in
    let looked : Bytes → Steps = λ name.
      some_or_close (env.interface name) closes_tun no_interface
        λ index. choose_bind env index bind_iface in
    let named : Steps =
      some_or_close env.name closes_tun unnamed λ name. configured_or_close calls (looked name) in
    let created : Steps = did creates_tun named in
    or_fail-Ends env.parses bad_conf
      (or_fail env.builds bad_request (or_fail env.creates no_tun created))
      (or_fail-Ends env.builds bad_request (or_fail env.creates no_tun created) (
        or_fail-Ends env.creates no_tun created (
          some_or_close-Ends env.name unnamed (λ name. configured_or_close calls (looked name))
            λ name.
              configured_or_close-Ends calls (looked name)
                (configure_interface-KeepsTun env.ifconfig env.route addrs)
                (some_or_close-Ends (env.interface name) no_interface
                  (λ index. choose_bind env index bind_iface)
                  λ index. choose_bind-Ends env index bind_iface))))
