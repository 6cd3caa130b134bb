-- ===== src/Resolver/Literal/Cases.antt =====
-- Which addresses `Resolve` passes on (resolver.go).
use vpnproxy.Base.{Bool, true, false, Option, some, ◌≡◌, ◌⊎◌, inl, inr, arith, Bytes, Option-cases}
use vpnproxy.Resolver.Ip.{Ip, is_loopback, is_ipv4}
use vpnproxy.Resolver.Literal.{address, literal}

module _ (parse_addr : Bytes → Option Ip) (unicode_lower : Bytes → Bytes) (ipv4_only : Bool) where
  -- A literal that is passed on is the host itself, an address that is neither a loopback address nor,
  -- with -ipv4-only, anything but IPv4.
  pub literal-address :
      (host passed : Bytes)
      → literal parse_addr unicode_lower ipv4_only host ≡ address passed
      → (ip : Ip) × (parse_addr host ≡ some ip)
        × (passed ≡ host)
        × (is_loopback ip ≡ false)
        × ((ipv4_only ≡ false) ⊎ (is_ipv4 ip ≡ true))
  unfolding literal
  literal-address host passed h = elim (Option-cases (parse_addr host)) [
    | inl none_ ↦ absurd (ground arith)
    | inr (ip, e) ↦ (ip, e, ground arith, ground arith, ground arith)
  ]
