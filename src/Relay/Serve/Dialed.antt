-- ===== src/Relay/Serve/Dialed.antt =====
-- Where `relayConn` dials to, with the resolver of the proxy (relay.go, resolver.go).
use mathlib.Core.List.Memᴰ
use vpnproxy.Base.{
  some_same, mem_later, ℕ, Bool, true, false, List, Option, some, ◌≡◌, ◌⊎◌, inl, inr, ◌∙◌, ap,
  Bytes, Memᴰ,
}
use vpnproxy.Go.Net.{join_host_port}
use vpnproxy.Go.Strconv.{itoa}
use vpnproxy.Resolver.Ip.{Ip, is_loopback, is_ipv4}
use vpnproxy.Resolver.Query.{Dns}
use vpnproxy.Resolver.Lookup.{Config, World}
use vpnproxy.Resolver.Literal.{Target, address, loopback_target, ipv6_target, name, literal}
use vpnproxy.Resolver.Literal.Cases.{literal-address}
use vpnproxy.Resolver.Resolve.{answer, resolve_target, resolve}
use vpnproxy.Resolver.Shared.{
  resolved, failed, Phase, starting, uncached, waiting, replied, State, Reach, initial,
}
use vpnproxy.Resolver.Service.{keys, Each, LooksUp}
use vpnproxy.Resolver.Service.Results.{IsLookedUp, replied-IsLookedUp}
use vpnproxy.Relay.Peek.{Reader, peek_hostname}
use vpnproxy.Relay.Conn.{Action, dials, pick_host, relay_conn}
use vpnproxy.Relay.Conn.Paths.{Course, no_host, unresolved, undialed, relayed, relay_conn-Course}

same_dial : {a b : Bytes} → dials a ≡ dials b → a ≡ b
same_dial e = cc

-- A dial leads to the address to which the host was resolved, at the listener's port.
Course-dials :
    (find : Bytes → Option Bytes) (dial : Bytes → Bool) (host : Bytes) (port : ℕ) (reader : Reader)
    (d : Bytes) (as' : List Action)
    → Course find dial host port reader as'
    → Memᴰ (dials d) as'
    → (target : Bytes) × (find host ≡ some target) × (d ≡ join_host_port target (itoa port))
Course-dials find dial host port reader d as' (no_host none_) m =
    absurd (Memᴰ.not-nil (mem_later (λ e. cc) m))
Course-dials find dial host port reader d as' (unresolved h lost) m =
    absurd (Memᴰ.not-nil (mem_later (λ e. cc) (mem_later (λ e. cc) m)))
Course-dials find dial host port reader d as' (undialed target h found down) m =
    elim (Memᴰ.cases_cons (mem_later (λ e. cc) m)) [
      | inl e ↦ (target, found, same_dial e)
      | inr rest ↦ absurd (Memᴰ.not-nil (mem_later (λ e. cc) rest))
    ]
Course-dials find dial host port reader d as' (relayed target h found up) m =
    elim (Memᴰ.cases_cons (mem_later (λ e. cc) m)) [
      | inl e ↦ (target, found, same_dial e)
      | inr rest ↦
          absurd
            (Memᴰ.not-nil (mem_later (λ e. cc) (mem_later (λ e. cc) (mem_later (λ e. cc) rest))))
    ]

answer-replied :
    (p : Phase) (target : Bytes) → answer p ≡ some target → p ≡ replied (resolved target)
answer-replied (replied (resolved ip)) target h = ap (λ x. replied (resolved x)) (some_same h)
answer-replied (replied (failed e)) target h = absurd (cc h)
answer-replied starting target h = absurd (cc h)
answer-replied (uncached cached) target h = absurd (cc h)
answer-replied (waiting cached id) target h = absurd (cc h)

resolve_target-cases :
    (p : Phase) (l : Target) (target : Bytes)
    → resolve_target p l ≡ some target
    → (l ≡ address target) ⊎ (p ≡ replied (resolved target))
unfolding resolve_target
resolve_target-cases p (address host) target h = inl (ap address (some_same h))
resolve_target-cases p loopback_target target h = absurd (cc h)
resolve_target-cases p ipv6_target target h = absurd (cc h)
resolve_target-cases p (name key) target h = inr (answer-replied p target h)

module _ (parse_addr : Bytes → Option Ip) (unicode_lower : Bytes → Bytes) (show_ip : Ip → Bytes)
    (dns : Dns) (cfg : Config) (IsPossible : World → Type 0) (host : ℕ → Bytes) where
  -- The host itself, as an address (of IPv4, with -ipv4-only), or what a lookup through the tunnel gave for it; no loopback address.
  pub record IsTarget (i : ℕ) (target : Bytes) : Type 0 where
    pub ip : Ip
    pub away : is_loopback ip ≡ false
    pub source :
        ((target ≡ host i)
          × (parse_addr (host i) ≡ some ip)
          × ((cfg.ipv4_only ≡ false) ⊎ (is_ipv4 ip ≡ true)))
        ⊎ ((target ≡ show_ip ip)
            × IsLookedUp unicode_lower show_ip dns cfg IsPossible host i target)

  resolve-IsTarget :
      {s : State} (r : Reach (keys unicode_lower host) host initial s)
      → Each
          (keys unicode_lower host)
          host
          (LooksUp (keys unicode_lower host) host show_ip dns cfg IsPossible)
          r
      → (i : ℕ) (target : Bytes)
      → resolve parse_addr unicode_lower cfg.ipv4_only (s.phase i) (host i) ≡ some target
      → IsTarget i target
  resolve-IsTarget {s} r ok i target h =
      elim (resolve_target-cases (s.phase i)
        (literal parse_addr unicode_lower cfg.ipv4_only (host i)) target h) [
          | inl lit ↦
              let (ip, parsed, same, away, family) =
                literal-address parse_addr unicode_lower cfg.ipv4_only (host i) target lit in
              record { ip = ip; away = away; source = inl (same, parsed, family) }
          | inr at_i ↦
              let found =
                replied-IsLookedUp unicode_lower show_ip dns cfg IsPossible host r ok i target
                  at_i in
              record {
                ip = found.is_resolved.answer.ip;
                away = found.is_resolved.away;
                source = inr (found.is_resolved.shown, found);
              }
        ]

  -- With the resolver that all connections share, in whatever state their goroutines have left it, where
  -- each lookup lands what `lookup` returns: a connection whose call of `Resolve` is the one of its sniffed
  -- host (or of the fallback) is dialed, at the listener's port, to that host, where it is an address (with
  -- -ipv4-only, one of IPv4), or else to one that a lookup through the tunnel gave for it. Either way it is
  -- no loopback address.
  pub relay_conn-IsTarget :
      {s : State} (r : Reach (keys unicode_lower host) host initial s)
      → Each
          (keys unicode_lower host)
          host
          (LooksUp (keys unicode_lower host) host show_ip dns cfg IsPossible)
          r
      → (i : ℕ) (dial : Bytes → Bool) (in_time : Bool) (pieces : List Bytes) (fallback : Bytes)
        (port : ℕ) (d : Bytes)
      → host i ≡ pick_host (peek_hostname in_time pieces).1 fallback
      → Memᴰ (dials d) (
          relay_conn
            (resolve parse_addr unicode_lower cfg.ipv4_only (s.phase i))
            dial
            in_time
            pieces
            fallback
            port)
      → (target : Bytes) × (d ≡ join_host_port target (itoa port)) × IsTarget i target
  relay_conn-IsTarget {s} r ok i dial in_time pieces fallback port d own m =
      let find = resolve parse_addr unicode_lower cfg.ipv4_only (s.phase i) in
      let (course, whole) = relay_conn-Course find dial in_time pieces fallback port in
      let (target, found, at_port) =
        Course-dials find dial _ port (peek_hostname in_time pieces).0 d _ course m in
      (target, at_port, resolve-IsTarget r ok i target (ap find own ∙ found))
