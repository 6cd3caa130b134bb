-- ===== src/Main/Run/Served.antt =====
-- With what `run` serves its relays (main.go).
use mathlib.Core.Path.{subst}
use mathlib.Core.List.Memᴰ
use vpnproxy.Base.{
  ℕ, ◌≤◌, Bool, true, false, List, [], ◌∷◌, ◌++◌, map, some, ◌≡◌, inl, inr, refl, sym, arith, Bytes,
  codes, if◌then◌else◌, All, Memᴰ, Bool-cases,
}
use vpnproxy.Go.Text.{equal, split}
use vpnproxy.Go.Duration.{Duration, IsPositive, less, max_duration}
use vpnproxy.Resolver.Ip.{Ip}
use vpnproxy.Resolver.Query.{Message, Dns}
use vpnproxy.Resolver.Query.Answers.{IsTtl}
use vpnproxy.Resolver.Lookup.{World, found, lookup}
use vpnproxy.Resolver.Lookup.Safe.{IsResolved, lookup-found}
use vpnproxy.Config.{FindResult, found_config, missing_in, missing}
use vpnproxy.Main.Ports.{Ports, ports, invalid_port, no_port, parse_ports}
use vpnproxy.Main.Ports.Entries.{IsPort, Reads, done, blank, port, Says, parse_ports-Says}
use vpnproxy.Tunnel.{Event, closes_device, started, failed, Steps}
use vpnproxy.Main.Run.{
  Flags, Serving, Happening, calls, serves, Exit, not_elevated, configure, refuse, Run, Env, serve,
  relay_through, with_config, with_ports, with_args, with_flags, run,
}

-- Every relay that is served has a property.
abbrev pub EachServing : (Serving → Type 0) → List Happening → Type 0
EachServing P [] = Unit
EachServing P (calls e ∷ xs) = EachServing P xs
EachServing P (serves s ∷ xs) = P s × EachServing P xs

EachServing-append :
    (P : Serving → Type 0) (xs ys : List Happening)
    → EachServing P xs
    → EachServing P ys
    → EachServing P (xs ++ ys)
EachServing-append P [] ys h k = k
EachServing-append P (calls e ∷ xs) ys h k = EachServing-append P xs ys h k
EachServing-append P (serves s ∷ xs) ys (p, h) k = (p, EachServing-append P xs ys h k)

EachServing-calls : (P : Serving → Type 0) (es : List Event) → EachServing P (map calls es)
EachServing-calls P [] = tt
EachServing-calls P (e ∷ es) = EachServing-calls P es

Reads-IsPort : {ps : List Bytes} {ns : List ℕ} → Reads ps ns → All IsPort ns
Reads-IsPort done = tt
Reads-IsPort (blank e r) = Reads-IsPort r
Reads-IsPort (port e p r) = (p, Reads-IsPort r)

-- The ports of the flag are valid.
abbrev AllPorts : Ports → Type 0
AllPorts (ports ns) = All IsPort ns
AllPorts (invalid_port p) = Unit
AllPorts no_port = Unit

Says-AllPorts : (ps : List Bytes) (r : Ports) → Says ps [] r → AllPorts r
Says-AllPorts ps (ports ns) (ms, e, some_, reads) = subst (All IsPort) (sym e) (Reads-IsPort reads)
Says-AllPorts ps (invalid_port p) h = tt
Says-AllPorts ps no_port h = tt

parse_ports-AllPorts : (s : Bytes) → AllPorts (parse_ports s)
parse_ports-AllPorts s = Says-AllPorts (split s (b',' ∷ [])) (parse_ports s) (parse_ports-Says s)

-- A valid port, and a resolver with the settings of the flags.
abbrev pub IsConfigured : Flags → Serving → Type 0
IsConfigured f s = IsPort s.port × ((dns_servers : List Ip) × (s.config ≡ configure f dns_servers))

module _ (env : Env) (f : Flags) where
  serve-IsConfigured :
      (path fallback : Bytes) (index : ℕ) (ps : List ℕ)
      → All IsPort ps
      → EachServing (IsConfigured f) (serve env f path fallback index ps)
  serve-IsConfigured path fallback index [] h = tt
  serve-IsConfigured path fallback index (p ∷ ps) (h, hs) =
      ((h, (env.dns path, refl)), serve-IsConfigured path fallback index ps hs)

  relay_through-IsConfigured :
      (path fallback : Bytes) (ps : List ℕ) (s : Steps)
      → All IsPort ps
      → EachServing (IsConfigured f) (relay_through env f path fallback ps s).0
  unfolding relay_through
  relay_through-IsConfigured path fallback ps (es, failed why) h =
      EachServing-calls (IsConfigured f) es
  relay_through-IsConfigured path fallback ps (es, started index) h =
      EachServing-append (IsConfigured f) (map calls es) _ (EachServing-calls (IsConfigured f) es) (
        EachServing-append (IsConfigured f) (serve env f path fallback index ps)
          (calls closes_device ∷ []) (serve-IsConfigured path fallback index ps h) tt)

  with_config-IsConfigured :
      (fallback : Bytes) (ps : List ℕ) (r : FindResult)
      → All IsPort ps
      → EachServing (IsConfigured f) (with_config env f fallback ps r).0
  unfolding with_config
  with_config-IsConfigured fallback ps (found_config path) h =
      relay_through-IsConfigured path fallback ps _ h
  with_config-IsConfigured fallback ps (missing_in dir) h = tt
  with_config-IsConfigured fallback ps (missing dirs) h = tt

  if_refuse-IsConfigured :
      (b : Bool) (r : Run) (why : Exit)
      → EachServing (IsConfigured f) r.0
      → EachServing (IsConfigured f) (if b then r else refuse why).0
  if_refuse-IsConfigured true r why h = h
  if_refuse-IsConfigured false r why h = tt

  with_ports-IsConfigured :
      (region fallback : Bytes) (p : Ports)
      → AllPorts p
      → EachServing (IsConfigured f) (with_ports env f region fallback p).0
  unfolding with_ports
  with_ports-IsConfigured region fallback (invalid_port p) h = tt
  with_ports-IsConfigured region fallback no_port h = tt
  with_ports-IsConfigured region fallback (ports ps) h =
      if_refuse-IsConfigured env.is_elevated _ not_elevated
        (with_config-IsConfigured fallback ps _ h)

  with_args-IsConfigured :
      (args : List Bytes) → EachServing (IsConfigured f) (with_args env f args).0
  unfolding with_args
  with_args-IsConfigured [] = tt
  with_args-IsConfigured (region ∷ []) =
      with_ports-IsConfigured region [] _ (parse_ports-AllPorts f.ports)
  with_args-IsConfigured (region ∷ target ∷ []) =
      with_ports-IsConfigured region target _ (parse_ports-AllPorts f.ports)
  with_args-IsConfigured (region ∷ target ∷ more ∷ args) = tt

-- The larger of the two limits, where they are no negative durations.
max_bounds :
    (lo hi : Duration)
    → IsPositive lo
    → IsPositive hi
    → IsPositive (max_duration hi lo) × (lo ≤ max_duration hi lo)
unfolding max_duration less
max_bounds lo hi h k = ground arith

same_serving : {s t : Serving} → serves s ≡ serves t → t ≡ s
same_serving e = cc

EachServing-member :
    (P : Serving → Type 0) (s : Serving) (xs : List Happening)
    → EachServing P xs
    → Memᴰ (serves s) xs
    → P s
EachServing-member P s [] h m = absurd (Memᴰ.not-nil m)
EachServing-member P s (calls e ∷ xs) h m = elim (Memᴰ.cases_cons m) [
  | inl same ↦ absurd (cc same)
  | inr later ↦ EachServing-member P s xs h later
]
EachServing-member P s (serves q ∷ xs) (p, h) m = elim (Memᴰ.cases_cons m) [
  | inl same ↦ subst P (same_serving same) p
  | inr later ↦ EachServing-member P s xs h later
]

run-IsConfigured :
    (env : Env) (argv : List Bytes) (f : Flags)
    → env.parse_flags argv ≡ some f
    → EachServing (IsConfigured f) (run env argv).0
unfolding run with_flags
run-IsConfigured env [] f e = rw e (with_args-IsConfigured env f f.args)
run-IsConfigured env (command ∷ rest) f e = elim (Bool-cases (equal command (codes "fetch"))) [
  | inl fetch ↦ rw fetch tt
  | inr other ↦ rw other elim (Bool-cases (equal command (codes "list"))) [
    | inl list ↦ rw list tt
    | inr neither ↦ rw (neither, e) (with_args-IsConfigured env f f.args)
  ]
]

-- Where the limits of -dns-min-ttl and -dns-max-ttl are not negative, in whichever order they are: a relay
-- that `run` serves has a valid port, and an address that its resolver finds is the first answer to its
-- queries and no loopback address, and is cached for at least the minimum, and at most the larger of the
-- two. The TTL of a record in a response is a 32-bit number.
pub run-serves :
    (env : Env) (argv : List Bytes) (f : Flags) (s : Serving)
    → env.parse_flags argv ≡ some f
    → Memᴰ (serves s) (run env argv).0
    → IsPositive f.dns_min_ttl
    → IsPositive f.dns_max_ttl
    → (show_ip : Ip → Bytes) (dns : Dns) (world : World) (host ip : Bytes) (ttl : Duration)
    → ((b : Bytes) (m : Message) → dns.unpack b ≡ some m → All IsTtl m.answers)
    → lookup show_ip dns s.config world host ≡ found ip ttl
    → IsPort s.port
      × IsResolved show_ip dns s.config world host ip ttl
      × (f.dns_min_ttl ≤ ttl)
      × (ttl ≤ max_duration f.dns_max_ttl f.dns_min_ttl)
unfolding configure
run-serves env argv f s parsed served lo hi show_ip dns world host ip ttl law found_ =
    let (is_port, (servers, set)) =
      EachServing-member (IsConfigured f) s (run env argv).0 (run-IsConfigured env argv f parsed)
        served in
    let (top, le) = max_bounds f.dns_min_ttl f.dns_max_ttl lo hi in
    let c = configure f servers in
    let (resolved, low, high) =
      lookup-found show_ip dns c world host law ip ttl
        (subst (λ x. lookup show_ip dns x world host ≡ found ip ttl) set found_) lo top le in
    (is_port, subst (λ x. IsResolved show_ip dns x world host ip ttl) (sym set) resolved, low, high)
