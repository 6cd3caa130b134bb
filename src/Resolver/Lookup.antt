-- ===== src/Resolver/Lookup.antt =====
-- `lookup` of resolver.go: A first, then AAAA; and the checks on the first answer.
pub mod Safe
use vpnproxy.Base.{
  ℕ, Bool, true, false, not, ◌&&◌, List, [], ◌∷◌, map, Option, none, some, Bytes, if◌then◌else◌,
  codes,
}
use vpnproxy.Go.Net.{join_host_port}
use vpnproxy.Go.Duration.{Duration, min_duration, max_duration}
use vpnproxy.Resolver.Ip.{Ip, is_loopback}
use vpnproxy.Resolver.Query.{Kind, type_a, type_aaaa, Attempt, DnsError, Dns, Answer, query_dns}
use vpnproxy.Resolver.Retry.{Retried, answered, failed, cancelled, crashed, query_dns_retry}

-- The fields of `resolver` that do not change once it serves.
pub record Config : Type 0 where
  pub dns_servers : List Ip
  pub port : Bytes
  pub timeout : Duration
  pub min_ttl : Duration
  pub max_ttl : Duration
  pub ipv4_only : Bool

-- Nanoseconds: 2 * time.Second, 5 * time.Minute and time.Hour.
abbrev pub default_dns_timeout : Duration
default_dns_timeout = 2_000_000_000

abbrev pub default_min_ttl : Duration
default_min_ttl = 300_000_000_000

abbrev pub default_max_ttl : Duration
default_max_ttl = 3_600_000_000_000

-- `newResolver`; run sets `ipv4Only` afterwards, and the maps are empty.
abbrev pub new_resolver : List Ip → Config
new_resolver dns_servers = record {
  dns_servers = dns_servers;
  port = codes "53";
  timeout = default_dns_timeout;
  min_ttl = default_min_ttl;
  max_ttl = default_max_ttl;
  ipv4_only = false;
}

pub data LookupError : Type 0 where
  no_dns_server no_record loopback_answer context_ended : LookupError
  attempts_failed : List DnsError → LookupError

pub data Lookup : Type 0 where
  found : Bytes → Duration → Lookup
  lost : LookupError → Lookup
  panicked : Lookup

-- What the environment does in one lookup, for each kind of query and attempt.
pub record World : Type 0 where
  pub alive : Kind → ℕ → Bool
  pub attempt : Kind → ℕ → Attempt

-- The checks on the first answer, and its time to live, clamped.
unfoldable pub accept : (Ip → Bytes) → Config → Answer → Lookup
accept show_ip c a =
    if is_loopback a.ip
    then lost loopback_answer
    else found (show_ip a.ip) (min_duration (max_duration a.ttl c.min_ttl) c.max_ttl)

-- What is made of the attempts' outcome, with the AAAA query left out or behind.
unfoldable pub settle : (Ip → Bytes) → Config → Retried → Lookup
settle show_ip c (answered (a ∷ as')) = accept show_ip c a
settle show_ip c (answered []) = lost no_record
settle show_ip c (failed errs) = lost (attempts_failed errs)
settle show_ip c cancelled = lost context_ended
settle show_ip c crashed = panicked

abbrev pub is_empty : Retried → Bool
is_empty (answered []) = true
is_empty _ = false

-- `net.IP.String` (the same text as `netip.Addr.String`) and dnsmessage are parameters.
module _ (show_ip : Ip → Bytes) (dns : Dns) (c : Config) (world : World) (host : Bytes) where
  unfoldable pub retry : Kind → Retried
  retry kind =
      query_dns_retry (world.alive kind)
        (λ i server timeout. query_dns dns (world.attempt kind i) server host kind timeout)
        (map (λ ip. join_host_port (show_ip ip) c.port) c.dns_servers) c.timeout

  unfoldable pub lookup_addresses : Retried
  lookup_addresses =
      let first = retry type_a in
      if is_empty first && not c.ipv4_only then retry type_aaaa else first

  unfoldable pub lookup_in : List Ip → Lookup
  lookup_in [] = lost no_dns_server
  lookup_in (server ∷ servers) = settle show_ip c lookup_addresses

  unfoldable pub lookup : Lookup
  lookup = lookup_in c.dns_servers
