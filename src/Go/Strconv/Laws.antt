-- ===== src/Go/Strconv/Laws.antt =====
-- `Atoi` undoes the decimal print.
use vpnproxy.Base.{
  ℕ, zero, suc, ◌+◌, ◌-◌, ◌*◌, ◌/◌, ◌%◌, ◌^◌, ◌≤◌, ◌<◌, true, [], ◌∷◌, some, ◌≡◌, ◌≢◌, refl, ap,
  sym, ◌∙◌, le→leb, arith, Bytes, leb, ltb, inl, inr, Bool-cases, All,
}
use vpnproxy.Go.Strconv.{pos, digits, itoa, scan, magnitude, in_range, atoi, scan_uint, parse_uint}

abbrev pub IsDigit : ℕ → Type 0
IsDigit c = (b'0' ≤ c) × (c ≤ b'9')

digits-IsDigit :
    (fuel n : ℕ) (out : Bytes) → n < fuel → All IsDigit out → All IsDigit (digits fuel n out)
unfolding digits
digits-IsDigit zero n out h d = absurd (omega arith)
digits-IsDigit (suc fuel) n out h d =
    ground (arith, digits-IsDigit fuel (n / 10) ((b'0' + n % 10) ∷ out))

digits-cons :
    (fuel n : ℕ) (out : Bytes) → n < fuel → (c : ℕ) × (s : Bytes) × (digits fuel n out ≡ c ∷ s)
unfolding digits
digits-cons zero n out h = absurd (omega arith)
digits-cons (suc fuel) n out h = elim (Bool-cases (ltb n 10)) [
  | inl one ↦ (b'0' + n, out, rw one)
  | inr more ↦ rw more (digits-cons fuel (n / 10) ((b'0' + n % 10) ∷ out) (ground arith))
]

scan-digits : (fuel n : ℕ) (out : Bytes) → n < fuel → scan 0 (digits fuel n out) ≡ scan n out
unfolding digits scan
scan-digits zero n out h = absurd (omega arith)
scan-digits (suc fuel) n out h = ground (arith, scan-digits fuel (n / 10) ((b'0' + n % 10) ∷ out))

atoi-digit :
    (c : ℕ) (s : Bytes) → IsDigit c → atoi (c ∷ s) ≡ in_range (2 ^ 63 - 1) pos (scan 0 (c ∷ s))
unfolding atoi magnitude
atoi-digit c s h = ground arith

-- A number below 2^63 is read back from its decimal print.
pub atoi-itoa : (n : ℕ) → n < 2 ^ 63 → atoi (itoa n) ≡ some (pos n)
unfolding itoa
atoi-itoa n h =
    let all = digits-IsDigit (suc n) n [] (omega arith) tt in
    let (c, s, e) = digits-cons (suc n) n [] (omega arith) in
    let top : leb n (2 ^ 63 - 1) ≡ true = le→leb n (2 ^ 63 - 1) (omega arith) in
    let read : scan 0 (c ∷ s) ≡ some n =
      ap (scan 0) (sym e) ∙ scan-digits (suc n) n [] (omega arith) ∙ (unfold scan in refl) in
    let first : IsDigit c = (rw e at all).0 in
    ap atoi e ∙ atoi-digit c s first ∙ rw read (unfold in_range in rw top)

pub itoa-IsDigit : (n : ℕ) → All IsDigit (itoa n)
unfolding itoa
itoa-IsDigit n = digits-IsDigit (suc n) n [] (omega arith) tt

pub itoa-ne-nil : (n : ℕ) → itoa n ≢ []
unfolding itoa
itoa-ne-nil n e = let (c, s, h) = digits-cons (suc n) n [] (omega arith) in cc

scan-grows : (n : ℕ) (s : Bytes) (m : ℕ) → scan n s ≡ some m → n ≤ m
unfolding scan
scan-grows n [] m h = ground arith
scan-grows n (c ∷ s) m h = ground (arith, scan-grows (n * 10 + (c - b'0')) s m)

scan_uint-scan : (n : ℕ) (s : Bytes) (m : ℕ) → scan n s ≡ some m → m < 2 ^ 64 → scan_uint n s ≡ m
unfolding scan scan_uint
scan_uint-scan n [] m h lt = ground arith
scan_uint-scan n (c ∷ s) m h lt =
    ground (arith, scan_uint-scan (n * 10 + (c - b'0')) s m, scan-grows (n * 10 + (c - b'0')) s m)

-- A number below 2^64 is read back from its decimal print.
pub parse_uint-itoa : (n : ℕ) → n < 2 ^ 64 → parse_uint (itoa n) ≡ n
unfolding itoa
parse_uint-itoa n lt =
    scan_uint-scan 0 (digits (suc n) n []) n
      (scan-digits (suc n) n [] (omega arith) ∙ (unfold scan in refl)) lt
