-- ===== src/Go/Net.antt =====
-- Package net, as the program calls it on texts.
pub mod Laws
use vpnproxy.Base.{
  ℕ, suc, Bool, true, false, not, ◌&&◌, ◌||◌, [], ◌∷◌, ◌++◌, Option, none, some, Bytes, codes, ◌==◌,
  if◌then◌else◌, length, drop,
}
use vpnproxy.Go.Text.{contains, cut}

-- The text before the last `c`, and the text behind it.
unfoldable pub cut_last : Bytes → ℕ → Option (Bytes × Bytes)
cut_last [] c = none
cut_last (d ∷ s) c = elim (cut_last s c) [
  | some (a, b) ↦ some (d ∷ a, b)
  | none ↦ if d == c then some ([], s) else none
]

-- `SplitHostPort` behind a leading `[`: `inside` is the text up to the first `]`, `after` the text
-- behind it, and `port` the text behind the last colon.
unfoldable pub bracketed : Bytes → Bytes → Bytes → Option (Bytes × Bytes)
bracketed inside after port =
    if not (length after == suc (length port))
    then none
    else if contains inside b'[' || contains after b'[' || contains after b']'
    then none
    else some (inside, port)

unfoldable pub split_at : Bytes → Bytes → Bytes → Option (Bytes × Bytes)
split_at (b ∷ s) host port =
    if b == b'['
    then elim (cut s b']') [ none ↦ none | some (inside, after) ↦ bracketed inside after port ]
    else if contains host b':' || contains (b ∷ s) b'[' || contains (b ∷ s) b']'
    then none
    else some (host, port)
split_at [] host port = none

-- `net.SplitHostPort`; its errors are one.
unfoldable pub split_host_port : Bytes → Option (Bytes × Bytes)
split_host_port s = elim (cut_last s b':') [
  | none ↦ none
  | some (host, port) ↦ split_at s host port
]

-- `net.JoinHostPort`
unfoldable pub join_host_port : Bytes → Bytes → Bytes
join_host_port host port =
    if contains host b':' then b'[' ∷ (host ++ (b']' ∷ b':' ∷ port)) else host ++ (b':' ∷ port)
