-- ===== src/Relay/Peek/Sniff.antt =====
-- What `peekHostname` finds in a first read.
use vpnproxy.Base.{
  ℕ, ◌+◌, ◌-◌, ◌≤◌, ◌<◌, true, false, List, [], ◌∷◌, ◌++◌, append_assoc, Option, none, some, ◌≡◌,
  ◌≢◌, refl, ap, ◌∙◌, arith, Bytes, codes, ltb, ◌==◌, le→leb, inl, inr, length, replicate, All,
  length-append, Bool-cases,
}
use vpnproxy.Go.Net.{join_host_port}
use vpnproxy.Relay.Slice.{returns, Slice, index-drop}
use vpnproxy.Relay.Sni.{record_body, recover, parse_sni}
use vpnproxy.Relay.Sni.Encode.{Extension, sni_ext, Hello, IsHello, IsOther, encode}
use vpnproxy.Relay.Sni.RoundTrip.{parse_sni-encode}
use vpnproxy.Relay.Http.{crlf, parse_http_host}
use vpnproxy.Relay.Http.Header.{
  IsSkipped, lines_then, header, IsHost, IsDigit, parse_http_host-host_port,
}
use vpnproxy.Relay.Peek.{buf_len, read, read_slice, sniff, peek_hostname}

pub peek_hostname-first :
    (piece : Bytes) (pieces : List Bytes)
    → piece ≢ []
    → length piece ≤ buf_len
    → (peek_hostname true (piece ∷ pieces)).1 ≡ sniff piece
unfolding peek_hostname
peek_hostname-first [] pieces ne fits = absurd (ne refl)
peek_hostname-first (c ∷ s) pieces ne fits = rw (peek_hostname, read, le→leb _ buf_len fits)

pub sniff-sni : (b name : Bytes) → parse_sni (read_slice b) ≡ returns (some name) → sniff b ≡ name
unfolding sniff
sniff-sni b name e = rw (sniff, e)

pub sniff-http :
    (b name : Bytes)
    → parse_sni (read_slice b) ≡ returns none
    → parse_http_host b ≡ some name
    → sniff b ≡ name
unfolding sniff
sniff-http b name e h = rw (sniff, e, h)

-- What does not begin like a TLS handshake record has no server name.
record_body_other :
    (hello : Slice) (c : ℕ) (rest : Bytes)
    → hello.mem ≡ c ∷ rest
    → c ≢ 0x16
    → record_body hello ≡ returns none
unfolding record_body
record_body_other hello c rest e ne = elim (Bool-cases (ltb hello.len 5)) [
  | inl short ↦ rw (record_body, short)
  | inr long ↦
      let unlike : (c == 0x16) ≡ false = ground arith in
      let filled : 0 < hello.len = ground arith in
      rw (record_body, long) (rw (index-drop hello 0 c rest e filled, unlike))
]

parse_sni-record_body :
    (hello : Slice) (r : Option Bytes) → record_body hello ≡ returns r → parse_sni hello ≡ returns r
unfolding parse_sni
parse_sni-record_body hello r e = ap recover e

-- When the first read holds a whole ClientHello, the lengths of whose parts fit their fields,
-- whatever else it holds, and fits the buffer, the name that is sniffed is the one of its server name
-- extension.
pub peek_hostname-encode :
    (major minor : ℕ) (h : Hello) (before after : List Extension) (name more : Bytes)
    (pieces : List Bytes)
    → IsHello h
    → All IsOther before
    → h.exts ≡ before ++ sni_ext name ∷ after
    → length (encode major minor h ++ more) ≤ buf_len
    → (peek_hostname true ((encode major minor h ++ more) ∷ pieces)).1 ≡ name
peek_hostname-encode major minor h before after name more pieces ok others e fits =
    let sent = encode major minor h in
    let ne : sent ++ more ≢ [] = λ x. cc in
    let zeros = replicate (buf_len - length (sent ++ more)) 0 in
    let size = length-append sent more in
    let slice_eq : read_slice (sent ++ more)
        ≡ (record { len = length sent + length more; mem = sent ++ (more ++ zeros) }) =
      λ i. record { len = size i; mem = append_assoc sent more zeros i } in
    peek_hostname-first (sent ++ more) pieces ne fits
    ∙ sniff-sni (sent ++ more) name (
        ap parse_sni slice_eq
        ∙ parse_sni-encode major minor h before after name (more ++ zeros) (length more) ok others e
            (omega (arith, length-append more zeros)))

-- When the first read is a plain HTTP request up to the line end of its Host header at least, does
-- not start like a TLS record, and fits the buffer, the name that is sniffed is the host, without its
-- port. The lines before are no Host headers, the host is visible ASCII without brackets, the port is
-- digits.
pub peek_hostname-host_port :
    (c : ℕ) (line : Bytes) (before : List Bytes) (pad host port rest : Bytes) (pieces : List Bytes)
    → c ≢ 0x16
    → All IsSkipped ((c ∷ line) ∷ before)
    → All (λ x. x ≡ b' ') pad
    → IsHost host
    → All IsDigit port
    → let request =
        lines_then
          ((c ∷ line) ∷ before)
          (header (codes "Host") (pad ++ join_host_port host port) ++ (crlf ++ rest)) in
      length request ≤ buf_len → (peek_hostname true (request ∷ pieces)).1 ≡ host
peek_hostname-host_port c line before pad host port rest pieces ne skipped blank h digits fits =
    peek_hostname-first _ pieces (λ x. cc) fits
    ∙ sniff-http _ host (parse_sni-record_body _ none (record_body_other _ c _ refl ne))
        (parse_http_host-host_port ((c ∷ line) ∷ before) pad host port rest skipped blank h digits)
