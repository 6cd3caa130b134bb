-- ===== src/Go/Strconv.antt =====
-- Package strconv, and the decimal print of fmt, as the program calls them.
pub mod Laws
use vpnproxy.Base.{
  ℕ, zero, suc, ◌+◌, ◌-◌, ◌*◌, ◌/◌, ◌%◌, ◌^◌, Bool, true, false, ◌&&◌, [], ◌∷◌, Option, none, some,
  Bytes, ltb, leb, ◌==◌, if◌then◌else◌,
}

-- `negsuc n` is -(n + 1).
pub data ℤ : Type 0 where
  pos : ℕ → ℤ
  negsuc : ℕ → ℤ

-- The decimal digits of `n` in front of `out`; `n + 1` rounds are enough.
unfoldable pub digits : ℕ → ℕ → Bytes → Bytes
digits zero n out = out
digits (suc fuel) n out =
    let more = digits fuel (n / 10) ((b'0' + n % 10) ∷ out) in
    if ltb n 10 then (b'0' + n) ∷ out else more

-- `fmt.Sprint(n)`, `strconv.Itoa(n)` for an `n` that is not negative.
unfoldable pub itoa : ℕ → Bytes
itoa n = digits (suc n) n []

-- The number that decimal digits spell behind `n`; `none` at any other byte.
unfoldable pub scan : ℕ → Bytes → Option ℕ
scan n [] = some n
scan n (c ∷ s) = if leb b'0' c && leb c b'9' then scan (n * 10 + (c - b'0')) s else none

unfoldable pub magnitude : Bytes → Option ℕ
magnitude [] = none
magnitude (c ∷ s) = scan 0 (c ∷ s)

-- A range error is an error too.
unfoldable pub in_range : ℕ → (ℕ → ℤ) → Option ℕ → Option ℤ
in_range top sign none = none
in_range top sign (some n) = if leb n top then some (sign n) else none

abbrev pub negate : ℕ → ℤ
negate zero = pos zero
negate (suc n) = negsuc n

-- `strconv.Atoi`, on a 64-bit machine: a sign, then digits, in the range of an int64.
unfoldable pub atoi : Bytes → Option ℤ
atoi [] = none
atoi (c ∷ s) =
    if c == b'-'
    then in_range (2 ^ 63) negate (magnitude s)
    else if c == b'+'
    then in_range (2 ^ 63 - 1) pos (magnitude s)
    else in_range (2 ^ 63 - 1) pos (magnitude (c ∷ s))

-- The value of `strconv.ParseUint(s, 10, 64)`, whatever its error: 0 for what is no number, and the
-- largest number from the digit on that overflows.
unfoldable pub scan_uint : ℕ → Bytes → ℕ
scan_uint n [] = n
scan_uint n (c ∷ s) =
    let next = n * 10 + (c - b'0') in
    let rest = scan_uint next s in
    if leb b'0' c && leb c b'9' then (if ltb next (2 ^ 64) then rest else 2 ^ 64 - 1) else 0

abbrev pub parse_uint : Bytes → ℕ
parse_uint s = scan_uint 0 s
