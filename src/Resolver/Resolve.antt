-- ===== src/Resolver/Resolve.antt =====
-- `Resolve` of resolver.go as its caller sees it: what it returns for a host, with the state in which the
-- call's own steps have left the service.
use vpnproxy.Base.{Bool, Option, none, some, Bytes}
use vpnproxy.Resolver.Ip.{Ip}
use vpnproxy.Resolver.Literal.{Target, address, loopback_target, ipv6_target, name, literal}
use vpnproxy.Resolver.Shared.{resolved, failed, Phase, starting, uncached, waiting, replied}

-- The address of an answer; `none` is an error, or no answer yet.
abbrev pub answer : Phase → Option Bytes
answer (replied (resolved ip)) = some ip
answer (replied (failed e)) = none
answer starting = none
answer (uncached cached) = none
answer (waiting cached id) = none

-- A literal is dealt with at once, a name by the steps of the call.
unfoldable pub resolve_target : Phase → Target → Option Bytes
resolve_target phase (address host) = some host
resolve_target phase loopback_target = none
resolve_target phase ipv6_target = none
resolve_target phase (name key) = answer phase

abbrev pub resolve : (Bytes → Option Ip) → (Bytes → Bytes) → Bool → Phase → Bytes → Option Bytes
resolve parse_addr unicode_lower ipv4_only phase host =
    resolve_target phase (literal parse_addr unicode_lower ipv4_only host)
