-- ===== src/Tests/Service.antt =====
-- Two connections whose names differ in case share one lookup through the tunnel (resolver.go).
use vpnproxy.Base.{
  true, false, List, [], ◌∷◌, Option, Memᴰ, ◌*◌, ◌≤◌, ◌⊎◌, arith, ℕ, zero, suc, ◌≡◌, refl, none,
  some, Bytes, codes,
}
use vpnproxy.Resolver.Query.{query_dns}
use vpnproxy.Resolver.Retry.{query_dns_retry}
use vpnproxy.Go.Text.{equal}
use vpnproxy.Resolver.Ip.{is_loopback}
use vpnproxy.Go.Duration.{min_duration, max_duration, less, times}
use vpnproxy.Resolver.Lookup.{lookup, lookup_in, lookup_addresses, settle, retry, accept}
use vpnproxy.Resolver.Literal.{literal, to_lower}
use vpnproxy.Resolver.Shared.{
  Found, got, running, landed, closed, Call, resolved, replied, State, check_cache, conclude, join,
  land, set_status, put, checks, joins, lands, closes, wakes, Reach, here, next_step, initial,
}
use vpnproxy.Resolver.Service.{result, keys, Each, LooksUp}
use vpnproxy.Resolver.Service.Results.{IsLookedUp, replied-IsLookedUp}
use vpnproxy.Resolver.Service.Answered.{CanBeAnswered, Reach-CanBeAnswered}
use vpnproxy.Resolver.Ip.{Ip}
use vpnproxy.Resolver.Resolve.{resolve_target, resolve}
use vpnproxy.Go.Net.{join_host_port}
use vpnproxy.Go.Strconv.{itoa}
use vpnproxy.Relay.Peek.{sniff, peek_hostname}
use vpnproxy.Relay.Conn.{
  Action, resolves, dials, closes_client, pick_host, dial_target, resolve_host, relay_conn,
}
use vpnproxy.Relay.Serve.Dialed.{IsTarget, relay_conn-IsTarget}
use vpnproxy.Resolver.Service.Ends.{IsOfFirst, steps, IsAnswered, GoesOn, Reach_terminates}
use vpnproxy.Resolver.Spec.Refines.{IsShown, Reach-IsShown}
use vpnproxy.Tests.Dns.{one_reply, show_ip, config, world, host_ip}

abbrev lowered : Bytes → Bytes
lowered s = s

abbrev host : ℕ → Bytes
host zero = codes "a.IO"
host (suc i) = codes "A.io"

abbrev key : ℕ → Bytes
key = keys lowered host

abbrev asked : State
asked = record initial { phase = put 0 (check_cache 5 none) initial.phase }

abbrev joined : State
joined = join asked 0 (key 0) (host 0) none none

abbrev call : Call
call = record { key = key 0; host = host 0; status = running }

abbrev asked_again : State
asked_again = record joined { phase = put 1 (check_cache 6 none) joined.phase }

abbrev shared : State
shared = join asked_again 1 (key 1) (host 1) none (some 0)

to_shared : Reach key host initial shared
unfolding check_cache join to_lower equal
to_shared =
    next_step
      (next_step (next_step (next_step here (checks 0 5 refl)) (joins 0 none refl))
        (checks 1 6 refl))
      (joins 1 none refl)

abbrev found_ip : Found
found_ip = got host_ip 300_000_000_000

abbrev done : State
done = land shared 0 call found_ip 7

abbrev told : State
told = record done {
  call = set_status done 0 (record call { status = landed found_ip }) (closed found_ip);
}

abbrev served : State
served = record told { phase = put 1 (replied (conclude none found_ip)) told.phase }

to_served : Reach key host initial served
unfolding to_shared land join
to_served =
    next_step
      (next_step (next_step to_shared (lands 0 7 call found_ip refl refl))
        (closes 0 (record call { status = landed found_ip }) found_ip refl refl))
      (wakes 1 0 none (record call { status = closed found_ip }) found_ip refl refl refl)

looks_up : Each key host (LooksUp key host show_ip one_reply config (λ w. w ≡ world)) to_served
unfolding to_served to_shared lookup lookup_in settle lookup_addresses retry query_dns_retry
    query_dns accept is_loopback min_duration less max_duration times result
looks_up = ((((((((tt, tt), tt), tt), tt), (world, refl, refl)), tt), tt))

is_served : served.phase 1 ≡ replied (resolved host_ip)
unfolding conclude
is_served = refl

replied-IsLookedUp_example :
    IsLookedUp lowered show_ip one_reply config (λ w. w ≡ world) host 1 host_ip
replied-IsLookedUp_example =
    replied-IsLookedUp lowered show_ip one_reply config (λ w. w ≡ world) host to_served looks_up 1
      host_ip is_served

Reach-IsShown_example : IsShown key host served
Reach-IsShown_example = Reach-IsShown key host to_served

Reach-CanBeAnswered_example : CanBeAnswered show_ip one_reply config world key host 0 shared
Reach-CanBeAnswered_example =
    Reach-CanBeAnswered show_ip one_reply config world key host to_shared 0

of_both : Each key host (IsOfFirst 2 key host) to_served
unfolding to_served to_shared
of_both =
    ((((((((tt, omega arith), omega arith), omega arith), omega arith), tt), tt), omega arith))

Reach_terminates_example :
    (steps 2 key host to_served ≤ 5 * 2)
    × ((i : ℕ) → IsAnswered 2 key host served i ⊎ GoesOn 2 key host served)
Reach_terminates_example = Reach_terminates 2 key host to_served of_both

abbrev no_literal : Bytes → Option Ip
no_literal s = none

-- The second connection sends no name, so its host is the fallback.
abbrev find : Bytes → Option Bytes
find = resolve no_literal lowered config.ipv4_only (served.phase 1)

abbrev dst : Bytes
dst = join_host_port host_ip (itoa 443)

abbrev dialed : List Action
dialed = resolves (host 1) ∷ dials dst ∷ closes_client ∷ []

relays : relay_conn find (λ d. false) true (codes "x" ∷ []) (host 1) 443 ≡ dialed
unfolding conclude relay_conn resolve_host dial_target peek_hostname sniff resolve_target literal
relays = refl

is_dialed : Memᴰ (dials dst) (relay_conn find (λ d. false) true (codes "x" ∷ []) (host 1) 443)
is_dialed = rw relays (Memᴰ.tail (Memᴰ.head refl))

its_host : host 1 ≡ pick_host (peek_hostname true (codes "x" ∷ [])).1 (host 1)
unfolding peek_hostname sniff
its_host = refl

relay_conn-IsTarget_example :
    (target : Bytes) × (dst ≡ join_host_port target (itoa 443))
    × IsTarget no_literal lowered show_ip one_reply config (λ w. w ≡ world) host 1 target
relay_conn-IsTarget_example =
    relay_conn-IsTarget no_literal lowered show_ip one_reply config (λ w. w ≡ world) host to_served
      looks_up 1 (λ d. false) true (codes "x" ∷ []) (host 1) 443 dst its_host is_dialed
