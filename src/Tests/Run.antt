-- ===== src/Tests/Run.antt =====
-- A run of the program that a signal ends (main.go).
use mathlib.Core.List.Memᴰ
use vpnproxy.Base.{◌≤◌, true, [], ◌∷◌, List, some, none, ◌≡◌, refl, arith, Bytes, codes, ◌++◌, Memᴰ}
use vpnproxy.Go.Duration.{min_duration, max_duration, less, times}
use vpnproxy.Resolver.Ip.{is_loopback}
use vpnproxy.Resolver.Query.{query_dns}
use vpnproxy.Resolver.Retry.{query_dns_retry}
use vpnproxy.Resolver.Lookup.{lookup, lookup_in, lookup_addresses, settle, retry, accept, found}
use vpnproxy.Resolver.Lookup.Safe.{IsResolved}
use vpnproxy.Config.{find_config, first_existing}
use vpnproxy.Main.Ports.{parse_ports, parse_entries}
use vpnproxy.Main.Ports.Entries.{IsPort}
use vpnproxy.Go.Text.{split, split_from, has_prefix, trim_space, trim_front, equal}
use vpnproxy.Go.Strconv.{atoi, in_range, magnitude, scan}
use vpnproxy.Tunnel.{
  inet, creates_tun, runs_ifconfig, adds_route, makes_device, sets_config, brings_up, logs_peers,
  closes_device, start_tunnel, configure_interface, assign, choose_bind, raise_device,
}
use vpnproxy.Main.Run.{
  Flags, default_flags, Serving, Happening, calls, serves, Env, signalled, interrupted, configure,
  exit_of, relay_through, with_config, with_ports, with_args, with_flags, run, bad_count,
}
use vpnproxy.Main.Run.Closed.{IsClosed, run-IsClosed}
use vpnproxy.Main.Run.Served.{run-serves}
use vpnproxy.Tests.Dns.{one_reply, show_ip, world, host_ip, law}
use vpnproxy.Tests.Tunnel.{silent}

abbrev flags : List Bytes → Flags
flags argv = record (default_flags argv) { ports = codes "8443" }

abbrev env : Env
env = record {
  parse_flags = λ argv. some (flags argv);
  is_elevated = true;
  join = λ dir name. dir ++ codes "/" ++ name;
  stat = λ p. true;
  user_dir = none;
  setup = λ p. record silent { handshake = true };
  addrs = λ p. (10 ∷ 0 ∷ 0 ∷ 2 ∷ []) ∷ [];
  dns = λ p. (10 ∷ 0 ∷ 0 ∷ 1 ∷ []) ∷ [];
  first = signalled;
}

abbrev argv : List Bytes
argv = codes "FR" ∷ []

abbrev serving : Serving
serving = record {
  listen = codes "127.0.0.1";
  port = 8443;
  if_index = 9;
  config = configure (flags argv) ((10 ∷ 0 ∷ 0 ∷ 1 ∷ []) ∷ []);
  fallback = [];
}

abbrev raised : List Happening
raised =
    calls creates_tun
    ∷ calls (runs_ifconfig (10 ∷ 0 ∷ 0 ∷ 2 ∷ []))
    ∷ calls (adds_route inet)
    ∷ calls (makes_device none)
    ∷ calls sets_config
    ∷ calls brings_up
    ∷ calls logs_peers
    ∷ []

run_does : run env argv ≡ (raised ++ serves serving ∷ calls closes_device ∷ [], interrupted)
unfolding run with_flags with_args with_ports with_config relay_through parse_ports parse_entries
    find_config first_existing start_tunnel configure_interface assign choose_bind raise_device
    exit_of split split_from has_prefix trim_space trim_front atoi in_range magnitude scan equal
    configure max_duration less
run_does = refl

is_served : Memᴰ (serves serving) (run env argv).0
is_served = rw run_does (Memᴰ.append_right raised (Memᴰ.head refl))

finds : lookup show_ip one_reply serving.config world (codes "a.io") ≡ found host_ip 300_000_000_000
unfolding lookup lookup_in settle lookup_addresses retry query_dns_retry query_dns accept
    is_loopback min_duration less max_duration times configure
finds = refl

run-serves_example :
    IsPort 8443
    × IsResolved show_ip one_reply serving.config world (codes "a.io") host_ip 300_000_000_000
    × ((flags argv).dns_min_ttl ≤ 300_000_000_000)
    × (300_000_000_000 ≤ max_duration (flags argv).dns_max_ttl (flags argv).dns_min_ttl)
run-serves_example =
    run-serves env argv (flags argv) serving refl is_served (omega arith) (omega arith) show_ip
      one_reply world (codes "a.io") host_ip 300_000_000_000 law finds

no_region : run env [] ≡ ([], bad_count 0)
unfolding run with_flags with_args
no_region = refl

run-IsClosed_example : IsClosed (run env argv)
run-IsClosed_example = run-IsClosed env argv
