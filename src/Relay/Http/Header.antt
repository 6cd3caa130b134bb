-- ===== src/Relay/Http/Header.antt =====
-- Which host `parseHTTPHost` finds in a request that is given as its lines.
use vpnproxy.Base.{
  ℕ, zero, ◌≤◌, true, List, [], ◌∷◌, ◌++◌, Option, none, some, ◌≡◌, ◌≢◌, refl, ap, ◌∙◌, arith,
  Bytes, codes, All, All-append,
}
use vpnproxy.Go.Text.{split_from, trim_front, trim_space, equal_fold, space1}
use vpnproxy.Go.Text.Laws.{Lacks, cut-Lacks, split_from-line, IsGraphic, trim_space-visible}
use vpnproxy.Go.Net.{join_host_port}
use vpnproxy.Go.Net.Laws.{
  IsPlain, split_host_port-join, split_host_port-none, join_host_port-All, join_host_port-ne-nil,
}
use vpnproxy.Relay.Http.{crlf, without_port, host_line, non_empty, first_host, parse_http_host}

-- A line that is not a Host header, and is one line.
abbrev pub IsSkipped : Bytes → Type 0
IsSkipped line = Lacks b'\r' line × (host_line line ≡ none)

-- Lines, each with its line end, in front of `rest`.
abbrev pub lines_then : List Bytes → Bytes → Bytes
lines_then [] rest = rest
lines_then (line ∷ lines) rest = line ++ (crlf ++ lines_then lines rest)

-- A header as it stands in the request.
abbrev pub header : Bytes → Bytes → Bytes
header name value = name ++ b':' ∷ value

first_host-lines :
    (lines : List Bytes) (rest : Bytes)
    → All IsSkipped lines
    → first_host (split_from crlf zero (lines_then lines rest))
      ≡ first_host (split_from crlf zero rest)
unfolding first_host
first_host-lines [] rest h = refl
first_host-lines (line ∷ lines) rest ((one, other), h) =
    ap first_host (split_from-line b'\r' b'\n' line (lines_then lines rest) one)
    ∙ rw (first_host, other) (first_host-lines lines rest h)

host_line-header :
    (name value : Bytes)
    → Lacks b':' name
    → equal_fold (trim_space name) (codes "host") ≡ true
    → host_line (header name value) ≡ some (without_port (trim_space value))
unfolding host_line
host_line-header name value colon is_host = rw (host_line, cut-Lacks name value b':' colon, is_host)

first_host-some :
    (line : Bytes) (lines : List Bytes) (host : Bytes)
    → host_line line ≡ some host
    → first_host (line ∷ lines) ≡ non_empty host
unfolding first_host
first_host-some line lines host e = rw (first_host, e)

parse_http_host-first_host : (b : Bytes) → parse_http_host b ≡ first_host (split_from crlf zero b)
unfolding parse_http_host
parse_http_host-first_host b = refl

parse_http_host-without_port :
    (before : List Bytes) (name value rest : Bytes)
    → All IsSkipped before
    → Lacks b'\r' name
    → Lacks b'\r' value
    → Lacks b':' name
    → equal_fold (trim_space name) (codes "host") ≡ true
    → parse_http_host (lines_then before (header name value ++ (crlf ++ rest)))
      ≡ non_empty (without_port (trim_space value))
parse_http_host-without_port before name value rest skipped one one' colon is_host =
    let line = header name value in
    let whole : Lacks b'\r' line = All-append _ name (b':' ∷ value) one (omega arith, one') in
    parse_http_host-first_host _
    ∙ first_host-lines before (line ++ (crlf ++ rest)) skipped
    ∙ ap first_host (split_from-line b'\r' b'\n' line rest whole)
    ∙ first_host-some line _ _ (host_line-header name value colon is_host)

pub without_port-join :
    (host port : Bytes)
    → Lacks b'[' host
    → Lacks b']' host
    → IsPlain port
    → without_port (join_host_port host port) ≡ host
unfolding without_port
without_port-join host port a b p = rw (without_port, split_host_port-join host port a b p)

pub without_port-Lacks : (s : Bytes) → Lacks b':' s → without_port s ≡ s
unfolding without_port
without_port-Lacks s h = rw (without_port, split_host_port-none s h)

-- What a client that follows the protocol sends: a host of visible ASCII without brackets (an IPv6
-- address is in brackets on the wire), a port of digits, and blanks in front.
pub record IsHost (host : Bytes) : Type 0 where
  pub visible : All IsGraphic host
  pub no_open : Lacks b'[' host
  pub no_close : Lacks b']' host
  pub some_byte : host ≢ []

abbrev pub IsDigit : ℕ → Type 0
IsDigit c = (b'0' ≤ c) × (c ≤ b'9')

IsDigit-parts : (port : Bytes) → All IsDigit port → All IsGraphic port × IsPlain port
IsDigit-parts [] h = (tt, (tt, tt, tt))
IsDigit-parts (c ∷ port) (hc, h) =
    let (g, (x, y, z)) = IsDigit-parts port h in
    ((omega arith, g), ((omega arith, x), (omega arith, y), (omega arith, z)))

visible-Lacks : (s : Bytes) → All IsGraphic s → Lacks b'\r' s
visible-Lacks [] h = tt
visible-Lacks (c ∷ s) (hc, h) = (omega arith, visible-Lacks s h)

pad-Lacks : (s : Bytes) → All (λ c. c ≡ b' ') s → Lacks b'\r' s × All (λ c. space1 c ≡ true) s
pad-Lacks [] h = (tt, tt)
pad-Lacks (c ∷ s) (hc, h) = let (a, b) = pad-Lacks s h in ((omega arith, a), (rw hc refl, b))

non_empty-some : (s : Bytes) → s ≢ [] → non_empty s ≡ some s
non_empty-some [] h = absurd (h refl)
non_empty-some (c ∷ s) h = refl

-- What a value, without the space round it, says of the host: nothing, where it is empty or a port
-- alone; itself, where it has no colon; and what stands before the port, without an address's brackets.
pub data Names (value : Bytes) : Option Bytes → Type 0 where
  nothing : value ≡ [] → Names value none
  port_only : (port : Bytes) → IsPlain port → value ≡ b':' ∷ port → Names value none
  bare : value ≢ [] → Lacks b':' value → Names value (some value)
  named :
      (host port : Bytes)
      → host ≢ []
      → Lacks b':' host
      → Lacks b'[' host
      → Lacks b']' host
      → IsPlain port
      → value ≡ host ++ b':' ∷ port
      → Names value (some host)
  address :
      (host port front back : Bytes)
      → host ≢ []
      → host ≡ front ++ b':' ∷ back
      → Lacks b'[' host
      → Lacks b']' host
      → IsPlain port
      → value ≡ b'[' ∷ (host ++ b']' ∷ b':' ∷ port)
      → Names value (some host)

-- From "Host: <host>:<port>", an IPv6 host in brackets, the bare host is found. The lines before are
-- no Host headers, the host is visible ASCII without brackets of its own, the port is digits.
pub parse_http_host-host_port :
    (before : List Bytes) (pad host port rest : Bytes)
    → All IsSkipped before
    → All (λ c. c ≡ b' ') pad
    → IsHost host
    → All IsDigit port
    → parse_http_host (
        lines_then before
          (header (codes "Host") (pad ++ join_host_port host port) ++ (crlf ++ rest)))
      ≡ some host
parse_http_host-host_port before pad host port rest skipped blank h digits =
    let value = join_host_port host port in
    let (seen, plain) = IsDigit-parts port digits in
    let (pad_line, space) = pad-Lacks pad blank in
    let visible =
      join_host_port-All IsGraphic host port h.visible seen (omega arith) (omega arith)
        (omega arith) in
    let trimmed = trim_space-visible pad value space visible (join_host_port-ne-nil host port) in
    parse_http_host-without_port before (codes "Host") (pad ++ value) rest skipped (omega arith)
      (All-append _ pad value pad_line (visible-Lacks value visible)) (omega arith)
      (unfold equal_fold trim_space trim_front in refl)
    ∙ ap (λ v. non_empty (without_port v)) trimmed
    ∙ ap non_empty (without_port-join host port h.no_open h.no_close plain)
    ∙ non_empty-some host h.some_byte
