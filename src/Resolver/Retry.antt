-- ===== src/Resolver/Retry.antt =====
-- `queryDNSRetry` and `budget` of resolver.go.
pub mod First
pub mod Budget
use vpnproxy.Base.{
  ℕ, zero, suc, ◌+◌, ◌%◌, Bool, true, false, List, [], ◌∷◌, ◌++◌, Option, none, some, Bytes,
  if◌then◌else◌, length, get_elem?,
}
use vpnproxy.Go.Duration.{Duration, times, half}
use vpnproxy.Resolver.Query.{Kind, Attempt, DnsError, Queried, gave, failed_with, Answer}

abbrev pub dns_attempts : ℕ
dns_attempts = 3

-- The outcome of all attempts: answers; every attempt's error, in order; the context's error, where it
-- ended before the first attempt; or a panic, at `attempt % len(servers)` with no server.
pub data Retried : Type 0 where
  answered : List Answer → Retried
  failed : List DnsError → Retried
  cancelled : Retried
  crashed : Retried

abbrev pub finish : List DnsError → Retried
finish [] = cancelled
finish (e ∷ errs) = failed (e ∷ errs)

-- `alive i` is `ctx.Err() == nil` before attempt `i`; `query` is `queryDNS` in that attempt's
-- environment.
module _ (alive : ℕ → Bool) (query : ℕ → Bytes → Duration → Queried (List Answer))
    (servers : List Bytes) (timeout : Duration) where
  -- `left` attempts are still allowed.
  unfoldable pub attempts : ℕ → ℕ → List DnsError → Retried
  attempts zero i errs = finish errs
  attempts (suc left) i errs = elim (alive i) [
    | false ↦ finish errs
    | true ↦ elim (get_elem? servers (i % length servers)) [
      | none ↦ crashed
      | some server ↦ elim (query i server (times timeout (i + 1))) [
        | gave answers ↦ answered answers
        | failed_with e ↦ attempts left (i + 1) (errs ++ e ∷ [])
      ]
    ]
  ]

  unfoldable pub query_dns_retry : Retried
  unfolding attempts
  query_dns_retry = attempts dns_attempts 0 []

-- `r.timeout * dnsAttempts * (dnsAttempts + 1) / 2`
unfoldable pub budget : Duration → Duration
budget timeout = half (times (times timeout dns_attempts) (dns_attempts + 1))
