-- ===== src/Tests/Dns.antt =====
-- `queryDNS`, `queryDNSRetry`, `lookup` and the literals of `Resolve` (resolver.go).
use vpnproxy.Base.{
  ◌↔◌, some_same, ℕ, zero, suc, ◌+◌, ◌<◌, ◌≤◌, true, List, [], ◌∷◌, Option, some, ◌≡◌, ◌↔◌, refl,
  sym, arith, Bytes, codes, All,
}
use vpnproxy.Go.Duration.{Duration, times, less, min_duration, max_duration}
use vpnproxy.Resolver.Ip.{Ip, is_loopback, is_ipv4}
use vpnproxy.Resolver.Query.{
  type_a, a_record, other_record, Message, Dns, received, not_read, Attempt, Queried, gave,
  failed_with, Answer, query_dns,
}
use vpnproxy.Resolver.Query.Answers.{IsTtl, Succeeds, query_dns-ok}
use vpnproxy.Resolver.Retry.{answered, query_dns_retry, budget}
use vpnproxy.Resolver.Retry.First.{FirstAt, query_dns_retry-answered}
use vpnproxy.Resolver.Retry.Budget.{budget_lem}
use vpnproxy.Resolver.Lookup.{
  new_resolver, Config, found, World, accept, settle, retry, lookup_addresses, lookup_in, lookup,
}
use vpnproxy.Resolver.Lookup.Safe.{IsResolved, lookup-found}
use vpnproxy.Resolver.Literal.{address, literal}

abbrev server_ip : Ip
server_ip = 10 ∷ 0 ∷ 0 ∷ 1 ∷ []

abbrev pub host_ip : Ip
host_ip = 203 ∷ 0 ∷ 113 ∷ 10 ∷ []

abbrev reply : Message
reply = record {
  id = 7;
  rcode = 0;
  answers =
      (record { ttl = 60; body = other_record })
      ∷ (record { ttl = 5; body = a_record host_ip })
      ∷ [];
}

-- A codec whose every packet is a response with one alias and one address.
abbrev pub one_reply : Dns
one_reply = record {
  new_name = λ n. some n;
  pack = λ id n kind. some (id ∷ n);
  unpack = λ b. some reply;
}

pub law : (b : Bytes) (m : Message) → one_reply.unpack b ≡ some m → All IsTtl m.answers
law b m e = rw (sym (some_same e)) (omega arith, (omega arith, tt))

abbrev pub attempt : Attempt
attempt = record { random_id = some 7; exchange = λ server timeout packet. received packet }

abbrev pub answer : Answer
answer = record { ip = host_ip; ttl = 5_000_000_000 }

query_dns_runs :
    query_dns one_reply attempt (codes "10.0.0.1:53") (codes "a.io") type_a 5 ≡ gave (answer ∷ [])
unfolding query_dns times
query_dns_runs = refl

query_dns-ok_example :
    (query_dns one_reply attempt (codes "10.0.0.1:53") (codes "a.io") type_a 5 ≡ gave (answer ∷ []))
    ↔ Succeeds one_reply attempt (codes "10.0.0.1:53") (codes "a.io") type_a 5 (answer ∷ [])
query_dns-ok_example =
    query_dns-ok one_reply attempt (codes "10.0.0.1:53") (codes "a.io") type_a 5 (answer ∷ [])

-- The first attempt is lost.
abbrev flaky : ℕ → Bytes → Duration → Queried (List Answer)
flaky zero server timeout = failed_with not_read
flaky (suc i) server timeout = gave (answer ∷ [])

flaky_runs :
    query_dns_retry (λ i. true) flaky (codes "s" ∷ codes "t" ∷ []) 5 ≡ answered (answer ∷ [])
unfolding query_dns_retry times
flaky_runs = refl

query_dns_retry-answered_example :
    (query_dns_retry (λ i. true) flaky (codes "s" ∷ codes "t" ∷ []) 5 ≡ answered (answer ∷ [])) ↔ (
      (d : ℕ) × (d < 3)
      × FirstAt (λ i. true) flaky (codes "s" ∷ codes "t" ∷ []) 5 0 d (answer ∷ []))
query_dns_retry-answered_example =
    query_dns_retry-answered (λ i. true) flaky (codes "s" ∷ codes "t" ∷ []) 5 (answer ∷ [])

budget_lem_example :
    budget 5_000_000_000 ≡ times 5_000_000_000 1 + times 5_000_000_000 2 + times 5_000_000_000 3
budget_lem_example = budget_lem 5_000_000_000 (omega arith)

abbrev pub show_ip : Ip → Bytes
show_ip ip = ip

abbrev pub config : Config
config = new_resolver (server_ip ∷ [])

abbrev pub world : World
world = record { alive = λ kind i. true; attempt = λ kind i. attempt }

lookup_runs : lookup show_ip one_reply config world (codes "a.io") ≡ found host_ip 300_000_000_000
unfolding lookup lookup_in settle lookup_addresses retry query_dns_retry query_dns accept
    is_loopback min_duration less max_duration times
lookup_runs = refl

lookup-found_example :
    IsResolved show_ip one_reply config world (codes "a.io") host_ip 300_000_000_000
    × (config.min_ttl ≤ 300_000_000_000)
    × (300_000_000_000 ≤ config.max_ttl)
lookup-found_example =
    lookup-found show_ip one_reply config world (codes "a.io") law host_ip 300_000_000_000
      lookup_runs (omega arith) (omega arith) (omega arith)

abbrev parse_addr : Bytes → Option Ip
parse_addr s = some host_ip

literal_runs :
    literal parse_addr (λ s. s) true (codes "203.0.113.10") ≡ address (codes "203.0.113.10")
unfolding literal is_loopback is_ipv4
literal_runs = refl
