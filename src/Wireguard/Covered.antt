-- ===== src/Wireguard/Covered.antt =====
-- Which DNS servers `logPeerStatus` warns about.
use vpnproxy.Base.{
  All, arith, false, List, [], ◌∷◌, some, ◌≡◌, ◌↔◌, inl, inr, refl, sym, Bool-cases, Memᴰ,
}
use mathlib.Core.List.Memᴰ
use vpnproxy.Wireguard.{PeerStatus, Prefix}
use vpnproxy.Wireguard.Peers.{
  Addr, handshaken, uncovered, prefix_contains, any_prefix_contains, warnings, notices,
  log_peer_status,
}

uncovered-injective : {a b : Addr} → uncovered a ≡ uncovered b → a ≡ b
uncovered-injective h = cc

uncovered-ne-handshaken :
    {a : Addr} (p : PeerStatus) → uncovered a ≡ handshaken p.endpoint p.allowed_ips → ⊥
uncovered-ne-handshaken p h = cc

warnings_of :
    (allowed : List Prefix) (servers : List Addr) (a : Addr)
    → Memᴰ (uncovered a) (warnings allowed servers)
    → Memᴰ a servers × (any_prefix_contains allowed a ≡ false)
unfolding warnings
warnings_of allowed [] a m = absurd (Memᴰ.not-nil m)
warnings_of allowed (dns ∷ servers) a m = elim (Bool-cases (any_prefix_contains allowed dns)) [
  | inl within ↦ let (i, out) = warnings_of allowed servers a (rw within at m) in (Memᴰ.tail i, out)
  | inr out ↦ elim (Memᴰ.cases_cons (rw out at m)) [
    | inl e ↦ let same : a ≡ dns = uncovered-injective e in (Memᴰ.head same, rw same out)
    | inr m' ↦ let (i, out') = warnings_of allowed servers a m' in (Memᴰ.tail i, out')
  ]
]

of_warnings :
    (allowed : List Prefix) (servers : List Addr) (a : Addr)
    → Memᴰ a servers
    → any_prefix_contains allowed a ≡ false
    → Memᴰ (uncovered a) (warnings allowed servers)
unfolding warnings
of_warnings allowed [] a m out = absurd (Memᴰ.not-nil m)
of_warnings allowed (dns ∷ servers) a (Memᴰ.head e) out = rw (sym e, out) (Memᴰ.head refl)
of_warnings allowed (dns ∷ servers) a (Memᴰ.tail m) out =
    let rest = of_warnings allowed servers a m out in
    elim (Bool-cases (any_prefix_contains allowed dns)) [
      | inl within ↦ rw within rest
      | inr out' ↦ rw out' (Memᴰ.tail rest)
    ]

-- None of the prefixes contains the address.
abbrev pub IsOutside : Addr → List Prefix → Type 0
IsOutside a = All (λ p. prefix_contains p a ≡ false)

any_prefix_contains-IsOutside :
    (allowed : List Prefix) (a : Addr) → any_prefix_contains allowed a ≡ false → IsOutside a allowed
unfolding any_prefix_contains
any_prefix_contains-IsOutside [] a h = tt
any_prefix_contains-IsOutside (p ∷ ps) a h =
    (ground arith, any_prefix_contains-IsOutside ps a (ground arith))

IsOutside-any_prefix_contains :
    (allowed : List Prefix) (a : Addr) → IsOutside a allowed → any_prefix_contains allowed a ≡ false
unfolding any_prefix_contains
IsOutside-any_prefix_contains [] a h = refl
IsOutside-any_prefix_contains (p ∷ ps) a (out, h) =
    ground (arith, out, IsOutside-any_prefix_contains ps a h)

abbrev pub IsUncovered : List PeerStatus → List Addr → Addr → Type 0
IsUncovered ps servers a = (p : PeerStatus) × Memᴰ p ps × Memᴰ a servers × IsOutside a p.allowed_ips

notices_of :
    (ps : List PeerStatus) (servers : List Addr) (a : Addr)
    → Memᴰ (uncovered a) (notices ps servers)
    → IsUncovered ps servers a
unfolding notices
notices_of [] servers a m = absurd (Memᴰ.not-nil m)
notices_of (p ∷ ps) servers a m = elim (Memᴰ.cases_cons m) [
  | inl e ↦ absurd (uncovered-ne-handshaken p e)
  | inr m' ↦ elim (Memᴰ.append_cases (warnings p.allowed_ips servers) m') [
    | inl w ↦
        let (i, out) = warnings_of p.allowed_ips servers a w in
        (p, Memᴰ.head refl, i, any_prefix_contains-IsOutside p.allowed_ips a out)
    | inr n ↦ let (q, at_q, i, out) = notices_of ps servers a n in (q, Memᴰ.tail at_q, i, out)
  ]
]

of_notices :
    (ps : List PeerStatus) (servers : List Addr) (a : Addr)
    → IsUncovered ps servers a
    → Memᴰ (uncovered a) (notices ps servers)
unfolding notices
of_notices [] servers a (p, m, i, out) = absurd (Memᴰ.not-nil m)
of_notices (p ∷ ps) servers a (q, Memᴰ.head e, i, out) = Memᴰ.tail (
    Memᴰ.append_left _ (
      of_warnings p.allowed_ips servers a i
        (IsOutside-any_prefix_contains p.allowed_ips a (rw e at out))))
of_notices (p ∷ ps) servers a (q, Memᴰ.tail m, i, out) =
    Memᴰ.tail
      (Memᴰ.append_right (warnings p.allowed_ips servers) (of_notices ps servers a (q, m, i, out)))

-- A server is warned about exactly when it is one of the DNS servers and there is a peer none of whose
-- allowed IPs contains it, as package netip says that a prefix contains an address. This is what the
-- code does and not what its comment says, which warns where the server is in no peer's AllowedIPs: with
-- two peers, a server that one of them covers is warned about as well.
pub log_peer_status-uncovered :
    (ps : List PeerStatus) (servers : List Addr) (a : Addr)
    → Memᴰ (uncovered a) (log_peer_status (some ps) servers) ↔ IsUncovered ps servers a
unfolding log_peer_status
log_peer_status-uncovered ps servers a = (notices_of ps servers a, of_notices ps servers a)
