-- ===== src/Main/Run.antt =====
-- `run` of main.go, and `requireElevated` of priv_darwin.go and priv_windows.go: what the program does, in
-- order, up to the end of `run`. What package flag, the system and the network give is a parameter.
pub mod Closed
pub mod Served
use vpnproxy.Base.{
  ℕ, Bool, true, false, List, [], ◌∷◌, ◌++◌, map, Option, none, some, Bytes, codes, if◌then◌else◌,
  length,
}
use vpnproxy.Go.Text.{equal}
use vpnproxy.Go.Duration.{Duration, max_duration}
use vpnproxy.Resolver.Ip.{Ip}
use vpnproxy.Resolver.Lookup.{
  Config, new_resolver, default_dns_timeout, default_min_ttl, default_max_ttl,
}
use vpnproxy.Config.{FindResult, found_config, find_config}
use vpnproxy.Main.Ports.{Ports, ports, invalid_port, no_port, parse_ports}
use vpnproxy.Tunnel.{
  Event, closes_device, Failure, Started, started, failed, Steps, Results, start_tunnel,
}

-- The flags, with the arguments behind them.
pub record Flags : Type 0 where
  pub ports : Bytes
  pub config_dir : Bytes
  pub listen : Bytes
  pub dns_timeout : Duration
  pub dns_min_ttl : Duration
  pub dns_max_ttl : Duration
  pub ipv4_only : Bool
  pub bind_iface : Bytes
  pub args : List Bytes

-- The defaults that `run` declares.
abbrev pub default_flags : List Bytes → Flags
default_flags args = record {
  ports = codes "80,443";
  config_dir = [];
  listen = codes "127.0.0.1";
  dns_timeout = default_dns_timeout;
  dns_min_ttl = default_min_ttl;
  dns_max_ttl = default_max_ttl;
  ipv4_only = false;
  bind_iface = [];
  args = args;
}

-- A call of `serveRelay` in a goroutine of its own; `if_index` is that of the dialer.
pub record Serving : Type 0 where
  pub listen : Bytes
  pub port : ℕ
  pub if_index : ℕ
  pub config : Config
  pub fallback : Bytes

pub data Happening : Type 0 where
  calls : Event → Happening
  serves : Serving → Happening

-- What the `select` at the end receives first: the error of a relay, or a signal.
pub data Stop : Type 0 where
  relay_ended : Bytes → Stop
  signalled : Stop

pub data Exit : Type 0 where
  fetches lists : List Bytes → Exit
  bad_flags not_elevated no_ports interrupted : Exit
  bad_count : ℕ → Exit
  bad_port : Bytes → Exit
  no_config : FindResult → Exit
  no_tunnel : Failure → Exit
  relay_failed : Bytes → Exit

abbrev pub Run : Type 0
Run = List Happening × Exit

-- `parse_flags` is `flag.Parse`, which ends the program where it refuses; `is_elevated` is what
-- `requireElevated` tests; `setup`, `addrs` and `dns` belong to the configuration at a path.
pub record Env : Type 0 where
  pub parse_flags : List Bytes → Option Flags
  pub is_elevated : Bool
  pub join : Bytes → Bytes → Bytes
  pub stat : Bytes → Bool
  pub user_dir : Option Bytes
  pub setup : Bytes → Results
  pub addrs : Bytes → List Ip
  pub dns : Bytes → List Ip
  pub first : Stop

-- `res := newResolver(…)`, and the settings behind it.
unfoldable pub configure : Flags → List Ip → Config
configure f dns_servers = record (new_resolver dns_servers) {
  timeout = f.dns_timeout;
  min_ttl = f.dns_min_ttl;
  max_ttl = max_duration f.dns_max_ttl f.dns_min_ttl;
  ipv4_only = f.ipv4_only;
}

unfoldable pub exit_of : Stop → Exit
exit_of (relay_ended err) = relay_failed err
exit_of signalled = interrupted

abbrev pub refuse : Exit → Run
refuse why = ([], why)

module _ (env : Env) (f : Flags) where
  abbrev pub serve : Bytes → Bytes → ℕ → List ℕ → List Happening
  serve path fallback if_index ps =
      map
        (λ port. serves (record {
          listen = f.listen;
          port = port;
          if_index = if_index;
          config = configure f (env.dns path);
          fallback = fallback;
        }))
        ps

  -- `defer t.Close()`: the tunnel is closed behind all that follows.
  unfoldable pub relay_through : Bytes → Bytes → List ℕ → Steps → Run
  relay_through path fallback ps (es, failed why) = (map calls es, no_tunnel why)
  relay_through path fallback ps (es, started if_index) = (
    map calls es ++ (serve path fallback if_index ps ++ calls closes_device ∷ []),
    exit_of env.first,
  )

  unfoldable pub with_config : Bytes → List ℕ → FindResult → Run
  with_config fallback ps (found_config path) =
      relay_through path fallback ps (start_tunnel (env.setup path) f.bind_iface (env.addrs path))
  with_config fallback ps other = refuse (no_config other)

  unfoldable pub with_ports : Bytes → Bytes → Ports → Run
  with_ports region fallback (invalid_port p) = refuse (bad_port p)
  with_ports region fallback no_port = refuse no_ports
  with_ports region fallback (ports ps) =
      if env.is_elevated
      then with_config fallback ps (find_config env.join env.stat env.user_dir region f.config_dir)
      else refuse not_elevated

  unfoldable pub with_args : List Bytes → Run
  with_args (region ∷ []) = with_ports region [] (parse_ports f.ports)
  with_args (region ∷ target ∷ []) = with_ports region target (parse_ports f.ports)
  with_args args = refuse (bad_count (length args))

unfoldable pub with_flags : Env → Option Flags → Run
with_flags env none = refuse bad_flags
with_flags env (some f) = with_args env f f.args

-- `os.Args` without the program's name.
unfoldable pub run : Env → List Bytes → Run
run env [] = with_flags env (env.parse_flags [])
run env (command ∷ rest) =
    if equal command (codes "fetch")
    then refuse (fetches rest)
    else if equal command (codes "list")
    then refuse (lists rest)
    else with_flags env (env.parse_flags (command ∷ rest))
