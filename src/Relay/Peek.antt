-- ===== src/Relay/Peek.antt =====
-- `peekHostname` of relay.go: one read of a connection, the two parsers on it, and the reader that
-- replays what was read.
pub mod Replay
pub mod Sniff
pub mod Cut
use vpnproxy.Base.{
  ℕ, ◌+◌, ◌-◌, Bool, true, false, List, [], ◌∷◌, ◌++◌, Option, none, some, Bytes, leb,
  if◌then◌else◌, length, take, drop, replicate,
}
use vpnproxy.Relay.Slice.{Outcome, returns, panics, exhausted, Slice}
use vpnproxy.Relay.Sni.{parse_sni}
use vpnproxy.Relay.Http.{parse_http_host}

-- `make([]byte, 4096)`
abbrev pub buf_len : ℕ
buf_len = 4096

-- A client's bytes, in the pieces in which they reach the socket. `client.Read(buf)` returns the
-- first piece, or as much of it as the buffer holds; nothing if no piece comes within the deadline.
unfoldable pub read : Bool → List Bytes → Bytes × List Bytes
read false pieces = ([], pieces)
read true [] = ([], [])
read true (piece ∷ pieces) =
    if leb (length piece) buf_len
    then (piece, pieces)
    else (take buf_len piece, drop buf_len piece ∷ pieces)

-- `io.MultiReader(bytes.NewReader(data), client)`, or the client itself with nothing to replay.
pub record Reader : Type 0 where
  pub replay : Bytes
  pub client : List Bytes

abbrev pub flat : List Bytes → Bytes
flat [] = []
flat (piece ∷ pieces) = piece ++ flat pieces

-- All that the reader will deliver.
abbrev pub content : Reader → Bytes
content r = r.replay ++ flat r.client

-- `data := buf[:n]`: the rest of the buffer is within the capacity, and still zero.
abbrev pub read_slice : Bytes → Slice
read_slice read_bytes = record {
  len = length read_bytes;
  mem = read_bytes ++ replicate (buf_len - length read_bytes) 0;
}

-- `if name, ok := parseSNI(data); ok`
abbrev pub found_sni : Outcome (Option Bytes) → Option Bytes
found_sni (returns r) = r
found_sni panics = none
found_sni exhausted = none

-- The name that the two parsers find, the empty string if neither does.
unfoldable pub sniff : Bytes → Bytes
unfolding parse_sni parse_http_host
sniff read_bytes = elim (found_sni (parse_sni (read_slice read_bytes))) [
  | some name ↦ name
  | none ↦ elim (parse_http_host read_bytes) [ some name ↦ name | none ↦ [] ]
]

peek_read : Bytes → List Bytes → Reader × Bytes
peek_read [] pieces = (record { replay = []; client = pieces }, [])
peek_read (c ∷ s) pieces = (record { replay = c ∷ s; client = pieces }, sniff (c ∷ s))

unfoldable pub peek_hostname : Bool → List Bytes → Reader × Bytes
unfolding peek_read read
peek_hostname in_time pieces =
    let (read_bytes, left) = read in_time pieces in peek_read read_bytes left
