-- ===== src/Relay/Http.antt =====
-- `parseHTTPHost` of relay.go: the Host header of a plain HTTP request.
pub mod Header
use vpnproxy.Base.{
  ℕ, Bool, true, false, not, ◌&&◌, List, [], ◌∷◌, Option, none, some, Bytes, codes, if◌then◌else◌,
}
use vpnproxy.Go.Text.{
  split, split_from, has_prefix, cut, contains, trim_front, trim_space, equal_fold,
}
use vpnproxy.Go.Net.{cut_last, split_at, bracketed, split_host_port}

abbrev pub crlf : Bytes
crlf = b'\r' ∷ b'\n' ∷ []

-- The value with a port behind it cut off.
unfoldable pub without_port : Bytes → Bytes
without_port value = elim (split_host_port value) [ none ↦ value | some (host, port) ↦ host ]

-- One round of the loop: `none` is `continue`.
unfoldable pub host_line : Bytes → Option Bytes
host_line line = elim (cut line b':') [
  | none ↦ none
  | some (name, value) ↦
      if not (equal_fold (trim_space name) (codes "host"))
      then none
      else some (without_port (trim_space value))
]

-- `host, host != ""`
abbrev pub non_empty : Bytes → Option Bytes
non_empty [] = none
non_empty (c ∷ s) = some (c ∷ s)

unfoldable pub first_host : List Bytes → Option Bytes
first_host [] = none
first_host (line ∷ lines) = elim (host_line line) [
  | none ↦ first_host lines
  | some host ↦ non_empty host
]

-- `parseHTTPHost`; `none` is `false`, whose first result is always the empty string.
unfoldable pub parse_http_host : Bytes → Option Bytes
unfolding first_host host_line without_port split split_from has_prefix cut trim_space trim_front
    equal_fold split_host_port split_at bracketed cut_last contains
parse_http_host bytes = first_host (split bytes crlf)
