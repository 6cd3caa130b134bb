-- ===== src/Main/Run/Closed.antt =====
-- When the tunnel is open in a run of `run` (main.go).
use vpnproxy.Base.{
  ℕ, Bool, true, false, List, [], ◌∷◌, ◌++◌, map, Option, none, some, ◌≡◌, inl, inr, refl, ap, ◌∙◌,
  Bytes, codes, if◌then◌else◌, Bool-cases,
}
use vpnproxy.Go.Text.{equal}
use vpnproxy.Config.{FindResult, found_config, missing_in, missing, find_config}
use vpnproxy.Main.Ports.{Ports, ports, invalid_port, no_port, parse_ports}
use vpnproxy.Tunnel.{Event, closes_device, started, failed, Steps, start_tunnel}
use vpnproxy.Tunnel.Closed.{
  Held, nothing, tun, device, broken, after, held, Ends, start_tunnel-Ends,
}
use vpnproxy.Main.Run.{
  Flags, Happening, calls, serves, Exit, not_elevated, refuse, Run, Env, serve, relay_through,
  with_config, with_ports, with_args, with_flags, run,
}

-- Relays are served only while the device is open.
abbrev pub after_happening : Held → Happening → Held
after_happening h (calls e) = after h e
after_happening device (serves s) = device
after_happening nothing (serves s) = broken
after_happening tun (serves s) = broken
after_happening broken (serves s) = broken

abbrev pub held_behind : Held → List Happening → Held
held_behind h [] = h
held_behind h (x ∷ xs) = held_behind (after_happening h x) xs

abbrev pub IsClosed : Run → Type 0
IsClosed (xs, exit) = held_behind nothing xs ≡ nothing

held_behind-append :
    (h : Held) (xs ys : List Happening)
    → held_behind h (xs ++ ys) ≡ held_behind (held_behind h xs) ys
held_behind-append h [] ys = refl
held_behind-append h (x ∷ xs) ys = held_behind-append (after_happening h x) xs ys

held_behind-calls : (h : Held) (es : List Event) → held_behind h (map calls es) ≡ held h es
held_behind-calls h [] = refl
held_behind-calls h (e ∷ es) = held_behind-calls (after h e) es

if_refuse-IsClosed :
    (b : Bool) (r : Run) (why : Exit) → IsClosed r → IsClosed (if b then r else refuse why)
if_refuse-IsClosed true r why h = h
if_refuse-IsClosed false r why h = refl

module _ (env : Env) (f : Flags) where
  held_behind-serve :
      (path fallback : Bytes) (index : ℕ) (ps : List ℕ)
      → held_behind device (serve env f path fallback index ps) ≡ device
  held_behind-serve path fallback index [] = refl
  held_behind-serve path fallback index (p ∷ ps) = held_behind-serve path fallback index ps

  relay_through-IsClosed :
      (path fallback : Bytes) (ps : List ℕ) (s : Steps)
      → Ends nothing s
      → IsClosed (relay_through env f path fallback ps s)
  unfolding relay_through
  relay_through-IsClosed path fallback ps (es, failed why) h = held_behind-calls nothing es ∙ h
  relay_through-IsClosed path fallback ps (es, started index) h =
      let served = serve env f path fallback index ps in
      let closing = calls closes_device ∷ [] in
      held_behind-append nothing (map calls es) (served ++ closing)
      ∙ ap (λ x. held_behind x (served ++ closing)) (held_behind-calls nothing es ∙ h)
      ∙ held_behind-append device served closing
      ∙ ap (λ x. held_behind x closing) (held_behind-serve path fallback index ps)

  with_config-IsClosed :
      (fallback : Bytes) (ps : List ℕ) (r : FindResult) → IsClosed (with_config env f fallback ps r)
  unfolding with_config
  with_config-IsClosed fallback ps (found_config path) =
      relay_through-IsClosed path fallback ps
        (start_tunnel (env.setup path) f.bind_iface (env.addrs path))
        (start_tunnel-Ends (env.setup path) f.bind_iface (env.addrs path))
  with_config-IsClosed fallback ps (missing_in dir) = refl
  with_config-IsClosed fallback ps (missing dirs) = refl

  with_ports-IsClosed :
      (region fallback : Bytes) (p : Ports) → IsClosed (with_ports env f region fallback p)
  unfolding with_ports
  with_ports-IsClosed region fallback (invalid_port p) = refl
  with_ports-IsClosed region fallback no_port = refl
  with_ports-IsClosed region fallback (ports ps) =
      if_refuse-IsClosed env.is_elevated _ not_elevated (
        with_config-IsClosed fallback ps
          (find_config env.join env.stat env.user_dir region f.config_dir))

  with_args-IsClosed : (args : List Bytes) → IsClosed (with_args env f args)
  unfolding with_args
  with_args-IsClosed [] = refl
  with_args-IsClosed (region ∷ []) = with_ports-IsClosed region [] (parse_ports f.ports)
  with_args-IsClosed (region ∷ target ∷ []) =
      with_ports-IsClosed region target (parse_ports f.ports)
  with_args-IsClosed (region ∷ target ∷ more ∷ args) = refl

with_flags-IsClosed : (env : Env) (o : Option Flags) → IsClosed (with_flags env o)
unfolding with_flags
with_flags-IsClosed env none = refl
with_flags-IsClosed env (some f) = with_args-IsClosed env f f.args

-- Whatever the arguments, and however `run` ends (an error, a relay that failed, a signal), relays are
-- served only while the tunnel is up, and in the end the tunnel, and all that its set-up opened, is closed.
pub run-IsClosed : (env : Env) (argv : List Bytes) → IsClosed (run env argv)
unfolding run
run-IsClosed env [] = with_flags-IsClosed env (env.parse_flags [])
run-IsClosed env (command ∷ rest) = elim (Bool-cases (equal command (codes "fetch"))) [
  | inl fetch ↦ rw fetch refl
  | inr other ↦ rw other elim (Bool-cases (equal command (codes "list"))) [
    | inl list ↦ rw list refl
    | inr neither ↦ rw neither (with_flags-IsClosed env (env.parse_flags (command ∷ rest)))
  ]
]
