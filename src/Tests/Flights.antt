-- ===== src/Tests/Flights.antt =====
-- Two connections that ask for one name at the same time (resolver.go, resolver_test.go).
use vpnproxy.Base.{ℕ, ◌≡◌, refl, none, some, Bytes, codes}
use vpnproxy.Resolver.Shared.{
  Found, got, running, landed, closed, Call, resolved, replied, State, check_cache, conclude, join,
  land, set_status, put, checks, joins, lands, closes, wakes, Reach, here, next_step, initial,
}
use vpnproxy.Resolver.Shared.Steps.{single_flight}

abbrev key : ℕ → Bytes
key i = codes "a.io"

abbrev host : ℕ → Bytes
host i = codes "A.io"

abbrev asked : State
asked = record initial { phase = put 0 (check_cache 5 none) initial.phase }

abbrev joined : State
joined = join asked 0 (key 0) (host 0) none none

abbrev call : Call
call = record { key = key 0; host = host 0; status = running }

to_joined : Reach key host initial joined
unfolding check_cache
to_joined = next_step (next_step here (checks 0 5 refl)) (joins 0 none refl)

call_runs : joined.call 0 ≡ some call
unfolding join
call_runs = refl

single_flight_example : ◌≡◌ {A = ℕ} 0 0
single_flight_example =
    single_flight key host to_joined 0 0 call call call_runs call_runs refl refl refl

abbrev result : Found
result = got (codes "192.0.2.7") 60

abbrev done : State
done = land joined 0 call result 6

abbrev told : State
told = record done {
  call = set_status done 0 (record call { status = landed result }) (closed result);
}

abbrev answered : State
answered = record told { phase = put 0 (replied (conclude none result)) told.phase }

to_answered : Reach key host initial answered
unfolding land join
to_answered =
    next_step
      (next_step (next_step to_joined (lands 0 6 call result refl refl))
        (closes 0 (record call { status = landed result }) result refl refl))
      (wakes 0 0 none (record call { status = closed result }) result refl refl refl)

is_answered : answered.phase 0 ≡ replied (resolved (codes "192.0.2.7"))
unfolding conclude
is_answered = refl
