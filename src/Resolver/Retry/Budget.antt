-- ===== src/Resolver/Retry/Budget.antt =====
-- The time that the attempts may take.
use vpnproxy.Base.{◌+◌, ◌*◌, ◌^◌, ◌<◌, ◌≡◌, arith}
use vpnproxy.Go.Duration.{Duration, times, half}
use vpnproxy.Resolver.Retry.{budget}

-- The budget of a lookup is exactly the sum of the timeouts of its attempts, of one kind of record, as
-- long as the multiplication does not overflow.
pub budget_lem :
    (timeout : Duration)
    → timeout * 12 < 2 ^ 63
    → budget timeout ≡ times timeout 1 + times timeout 2 + times timeout 3
unfolding budget times half
budget_lem timeout h = ground arith
