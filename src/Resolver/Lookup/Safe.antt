-- ===== src/Resolver/Lookup/Safe.antt =====
-- What `lookup` returns.
use vpnproxy.Base.{
  ℕ, ◌+◌, ◌<◌, ◌≤◌, Bool, true, false, not, ◌&&◌, List, [], ◌∷◌, map, some, ◌≡◌, ◌≢◌, ◌⊎◌, inl, inr,
  refl, sym, ◌∙◌, arith, Bytes, if◌then◌else◌, length, length-map, All, Bool-cases,
}
use vpnproxy.Go.Net.{join_host_port}
use vpnproxy.Go.Duration.{Duration, IsPositive, min_duration, max_duration, times, clamp_bounds}
use vpnproxy.Resolver.Ip.{Ip, is_loopback}
use vpnproxy.Resolver.Query.{Kind, type_a, type_aaaa, Message, Dns, Queried, Answer, query_dns}
use vpnproxy.Resolver.Query.Answers.{IsTtl, query_dns-IsPositive}
use vpnproxy.Resolver.Retry.{Retried, answered, failed, cancelled, crashed}
use vpnproxy.Resolver.Retry.First.{
  FirstAt-Gives, query_dns_retry-answered, query_dns_retry-ne-crashed,
}
use vpnproxy.Resolver.Lookup.{
  Config, found, lost, no_dns_server, panicked, World, accept, settle, is_empty, retry,
  lookup_addresses, lookup_in, lookup,
}

choose_cases :
    (r s : Retried) (b : Bool)
    → ((if is_empty r && not b then s else r) ≡ r)
      ⊎ ((r ≡ answered []) × (b ≡ false) × ((if is_empty r && not b then s else r) ≡ s))
choose_cases (answered []) s true = inl refl
choose_cases (answered []) s false = inr (refl, refl, refl)
choose_cases (answered (a ∷ as')) s b = inl refl
choose_cases (failed errs) s b = inl refl
choose_cases cancelled s b = inl refl
choose_cases crashed s b = inl refl

-- Only answers are accepted: the first of them, if it is no loopback address.
settle-found :
    (show_ip : Ip → Bytes) (c : Config) (r : Retried) (ip : Bytes) (ttl : Duration)
    → settle show_ip c r ≡ found ip ttl
    → (a : Answer) × (rest : List Answer) × (r ≡ answered (a ∷ rest))
      × (is_loopback a.ip ≡ false)
      × (ip ≡ show_ip a.ip)
      × (ttl ≡ min_duration (max_duration a.ttl c.min_ttl) c.max_ttl)
unfolding settle accept
settle-found show_ip c (answered (a ∷ rest)) ip ttl h = elim (Bool-cases (is_loopback a.ip)) [
  | inl loop ↦ absurd (ground arith)
  | inr away ↦ (a, rest, refl, away, ground arith, ground arith)
]
settle-found show_ip c (answered []) ip ttl h = cc
settle-found show_ip c (failed errs) ip ttl h = cc
settle-found show_ip c cancelled ip ttl h = cc
settle-found show_ip c crashed ip ttl h = cc

settle-ne-panicked :
    (show_ip : Ip → Bytes) (c : Config) (r : Retried) → r ≢ crashed → settle show_ip c r ≢ panicked
unfolding settle accept
settle-ne-panicked show_ip c (answered (a ∷ rest)) ne h = ground arith
settle-ne-panicked show_ip c crashed ne h = ne refl
settle-ne-panicked show_ip c (answered []) ne h = cc
settle-ne-panicked show_ip c (failed errs) ne h = cc
settle-ne-panicked show_ip c cancelled ne h = cc

module _ (show_ip : Ip → Bytes) (dns : Dns) (c : Config) (world : World) (host : Bytes) where
  -- Where a found address came from: it is the first answer to the A query, or, where that had no
  -- answer and IPv6 is allowed, to the AAAA query.
  abbrev pub FirstAnswer : Answer → Type 0
  FirstAnswer a =
      (rest : List Answer) × ((retry show_ip dns c world host type_a ≡ answered (a ∷ rest))
        ⊎ ((retry show_ip dns c world host type_a ≡ answered [])
            × (c.ipv4_only ≡ false)
            × (retry show_ip dns c world host type_aaaa ≡ answered (a ∷ rest))))

  retry-ne-crashed :
      (kind : Kind) → 0 < length c.dns_servers → retry show_ip dns c world host kind ≢ crashed
  unfolding retry
  retry-ne-crashed kind some_ =
      query_dns_retry-ne-crashed _ _ (map (λ ip. join_host_port (show_ip ip) c.port) c.dns_servers)
        c.timeout (rw length-map some_)

  lookup_addresses-cases :
      (lookup_addresses show_ip dns c world host ≡ retry show_ip dns c world host type_a)
      ⊎ ((retry show_ip dns c world host type_a ≡ answered [])
          × (c.ipv4_only ≡ false)
          × (lookup_addresses show_ip dns c world host ≡ retry show_ip dns c world host type_aaaa))
  unfolding lookup_addresses
  lookup_addresses-cases = choose_cases _ _ c.ipv4_only

  lookup-cases :
      ((c.dns_servers ≡ []) × (lookup show_ip dns c world host ≡ lost no_dns_server))
      ⊎ ((0 < length c.dns_servers)
          × (lookup show_ip dns c world host
              ≡ settle show_ip c (lookup_addresses show_ip dns c world host)))
  unfolding lookup lookup_in
  lookup-cases = by_servers c.dns_servers
    where
      by_servers :
          (servers : List Ip)
          → ((servers ≡ []) × (lookup_in show_ip dns c world host servers ≡ lost no_dns_server))
            ⊎ ((0 < length servers)
                × (lookup_in show_ip dns c world host servers
                    ≡ settle show_ip c (lookup_addresses show_ip dns c world host)))
      by_servers [] = inl (refl, refl)
      by_servers (s ∷ servers) = inr (omega arith, refl)

  lookup_addresses-ne-crashed :
      0 < length c.dns_servers → lookup_addresses show_ip dns c world host ≢ crashed
  lookup_addresses-ne-crashed some_ h = elim lookup_addresses-cases [
    | inl first ↦ retry-ne-crashed type_a some_ (sym first ∙ h)
    | inr (none_, six, second) ↦ retry-ne-crashed type_aaaa some_ (sym second ∙ h)
  ]

  -- A lookup never panics, whatever the servers, their answers and the settings.
  pub lookup-ne-panicked : lookup show_ip dns c world host ≢ panicked
  lookup-ne-panicked h = elim lookup-cases [
    | inl (none_, e) ↦ cc
    | inr (some_, e) ↦
        settle-ne-panicked show_ip c _ (lookup_addresses-ne-crashed some_) (sym e ∙ h)
  ]

  pub record IsResolved (ip : Bytes) (ttl : Duration) : Type 0 where
    pub answer : Answer
    pub first : FirstAnswer answer
    pub away : is_loopback answer.ip ≡ false
    pub shown : ip ≡ show_ip answer.ip
    pub clamped : ttl ≡ min_duration (max_duration answer.ttl c.min_ttl) c.max_ttl

  addresses-FirstAnswer :
      (a : Answer) (rest : List Answer)
      → lookup_addresses show_ip dns c world host ≡ answered (a ∷ rest)
      → FirstAnswer a
  addresses-FirstAnswer a rest h = elim lookup_addresses-cases [
    | inl e ↦ (rest, inl (sym e ∙ h))
    | inr (none_, six, e) ↦ (rest, inr (none_, six, sym e ∙ h))
  ]

  pub lookup-IsResolved :
      (ip : Bytes) (ttl : Duration)
      → lookup show_ip dns c world host ≡ found ip ttl
      → IsResolved ip ttl
  lookup-IsResolved ip ttl h = elim lookup-cases [
    | inl (none_, e) ↦ absurd (cc (sym e ∙ h))
    | inr (some_, e) ↦
        let (a, rest, got, away, shown, clamped) = settle-found show_ip c _ ip ttl (sym e ∙ h) in
        record {
          answer = a;
          first = addresses-FirstAnswer a rest got;
          away = away;
          shown = shown;
          clamped = clamped;
        }
  ]

  module _ (law : (b : Bytes) (m : Message) → dns.unpack b ≡ some m → All IsTtl m.answers) where
    retry-IsPositive :
        (kind : Kind) (a : Answer) (rest : List Answer)
        → retry show_ip dns c world host kind ≡ answered (a ∷ rest)
        → IsPositive a.ttl
    unfolding retry
    retry-IsPositive kind a rest h =
        let servers = map (λ ip. join_host_port (show_ip ip) c.port) c.dns_servers in
        let alive : ℕ → Bool = world.alive kind in
        let query : ℕ → Bytes → Duration → Queried (List Answer) =
          λ i server timeout. query_dns dns (world.attempt kind i) server host kind timeout in
        let (d, lt, f) = (query_dns_retry-answered alive query servers c.timeout (a ∷ rest)).0 h in
        let (j, g) = FirstAt-Gives alive query servers c.timeout 0 d (a ∷ rest) f in
        (query_dns-IsPositive dns (world.attempt kind j) g.1 host kind (times c.timeout (j + 1)) law
          g.3).0

    FirstAnswer-IsPositive : (a : Answer) → FirstAnswer a → IsPositive a.ttl
    FirstAnswer-IsPositive a (rest, inl h) = retry-IsPositive type_a a rest h
    FirstAnswer-IsPositive a (rest, inr (none_, six, h)) = retry-IsPositive type_aaaa a rest h

    -- A found address is the first answer to the A query, or, where that had none and IPv6 is
    -- allowed, to the AAAA query; it is no loopback address; and it is cached for a time between the
    -- minimum and the maximum, where these are durations that are not negative and in order. The TTL
    -- of a record in a response is a 32-bit number.
    pub lookup-found :
        (ip : Bytes) (ttl : Duration)
        → lookup show_ip dns c world host ≡ found ip ttl
        → IsPositive c.min_ttl
        → IsPositive c.max_ttl
        → c.min_ttl ≤ c.max_ttl
        → IsResolved ip ttl × (c.min_ttl ≤ ttl) × (ttl ≤ c.max_ttl)
    lookup-found ip ttl h lo hi le =
        let r = lookup-IsResolved ip ttl h in
        let (low, high) =
          clamp_bounds c.min_ttl c.max_ttl r.answer.ttl lo hi
            (FirstAnswer-IsPositive r.answer r.first) le in
        (r, rw r.clamped low, rw r.clamped high)
