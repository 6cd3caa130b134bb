-- ===== src/Go/Duration.antt =====
-- time.Duration: an int64, as its bit pattern below 2^64, with the wrap-around of its arithmetic; and
-- times in nanoseconds.
use vpnproxy.Base.{
  ℕ, ◌+◌, ◌-◌, ◌*◌, ◌/◌, ◌%◌, ◌^◌, ◌<◌, ◌≤◌, Bool, ◌≡◌, arith, ltb, leb, if◌then◌else◌,
}

abbrev pub Duration : Type 0
Duration = ℕ

abbrev pub word_len : ℕ
word_len = 2 ^ 64

abbrev pub is_negative : Duration → Bool
is_negative d = leb (2 ^ 63) d

-- The signed order.
unfoldable pub less : Duration → Duration → Bool
less a b = ltb ((a + 2 ^ 63) % word_len) ((b + 2 ^ 63) % word_len)

-- The built-in `min` and `max`.
unfoldable pub min_duration : Duration → Duration → Duration
min_duration a b = if less b a then b else a

unfoldable pub max_duration : Duration → Duration → Duration
max_duration a b = if less a b then b else a

unfoldable pub times : Duration → ℕ → Duration
times d k = d * k % word_len

-- `d / 2`, which Go rounds towards zero.
unfoldable pub half : Duration → Duration
half d = if is_negative d then (word_len - (word_len - d) / 2) % word_len else d / 2

-- `t.Add(d)`, for a time that does not go below zero.
unfoldable pub add : ℕ → Duration → ℕ
add t d = if is_negative d then t - (word_len - d) else t + d

-- Durations that are not negative behave like numbers.
abbrev pub IsPositive : Duration → Type 0
IsPositive d = d < 2 ^ 63

pub less_lem : (a b : Duration) → IsPositive a → IsPositive b → less a b ≡ ltb a b
unfolding less
less_lem a b h k = ground arith

pub clamp_bounds :
    (lo hi d : Duration)
    → IsPositive lo
    → IsPositive hi
    → IsPositive d
    → lo ≤ hi
    → (lo ≤ min_duration (max_duration d lo) hi) × (min_duration (max_duration d lo) hi ≤ hi)
unfolding min_duration max_duration less
clamp_bounds lo hi d a b c h = ground arith
