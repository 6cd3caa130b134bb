-- ===== src/Tests/Sni.antt =====
-- `parseSNI` and `peekHostname` on a ClientHello (relay.go, relay_test.go).
use vpnproxy.Base.{
  ◌+◌, [], ◌∷◌, ◌++◌, Option, none, some, ◌≡◌, refl, arith, Bytes, codes, length, take, replicate,
  true,
}
use vpnproxy.Relay.Slice.{returns, Slice}
use vpnproxy.Relay.Sni.{parse_sni}
use vpnproxy.Relay.Sni.Encode.{Extension, sni_ext, Hello, IsHello, encode}
use vpnproxy.Relay.Sni.Total.{IsFound, parse_sni_total}
use vpnproxy.Relay.Sni.RoundTrip.{parse_sni-encode}
use vpnproxy.Relay.Peek.{content, peek_hostname}
use vpnproxy.Relay.Peek.Replay.{content-peek_hostname}
use vpnproxy.Relay.Peek.Sniff.{peek_hostname-encode}
use vpnproxy.Relay.Peek.Cut.{peek_hostname-cut}

abbrev grease : Extension
grease = record { kind = 0x0a0a; body = 0 ∷ [] }

abbrev versions : Extension
versions = record { kind = 43; body = 2 ∷ 3 ∷ 4 ∷ [] }

abbrev host : Bytes
host = codes "geo.io"

abbrev hello : Hello
hello = record {
  head = replicate 34 3;
  session = 9 ∷ 9 ∷ [];
  suites = 0x13 ∷ 1 ∷ [];
  methods = 0 ∷ [];
  exts = grease ∷ sni_ext host ∷ versions ∷ [];
}

hello-IsHello : IsHello hello
hello-IsHello = omega arith

-- A slice with no capacity beyond its length, as in relay_test.go.
abbrev exact : Bytes → Slice
exact b = record { len = length b; mem = b }

parses : parse_sni (exact (encode 3 1 hello)) ≡ returns (some host)
unfolding parse_sni
parses = refl

not_tls : parse_sni (exact (codes "GET / HTTP/1.1")) ≡ returns none
unfolding parse_sni
not_tls = refl

-- Without spare capacity, a name cut short is a panic, and that is "not found".
short : parse_sni (exact (take 70 (encode 3 1 hello))) ≡ returns none
unfolding parse_sni
short = refl

parse_sni-encode_example :
    parse_sni (record { len = length (encode 3 1 hello) + 1; mem = encode 3 1 hello ++ 7 ∷ 8 ∷ [] })
    ≡ returns (some host)
parse_sni-encode_example =
    parse_sni-encode 3 1 hello (grease ∷ []) (versions ∷ []) host (7 ∷ 8 ∷ []) 1 hello-IsHello
      (omega arith) refl (omega arith)

parse_sni_total_example :
    (r : Option Bytes) × (parse_sni (exact (0x16 ∷ 3 ∷ 1 ∷ 0 ∷ 1 ∷ 1 ∷ [])) ≡ returns r)
    × IsFound (0x16 ∷ 3 ∷ 1 ∷ 0 ∷ 1 ∷ 1 ∷ []) r
parse_sni_total_example = parse_sni_total (exact (0x16 ∷ 3 ∷ 1 ∷ 0 ∷ 1 ∷ 1 ∷ []))

content-peek_hostname_example :
    content (peek_hostname true (codes "GET" ∷ codes " /" ∷ [])).0 ≡ codes "GET /"
content-peek_hostname_example = content-peek_hostname true (codes "GET" ∷ codes " /" ∷ [])

peek_hostname-encode_example :
    (peek_hostname true ((encode 3 1 hello ++ 7 ∷ []) ∷ (1 ∷ []) ∷ [])).1 ≡ host
peek_hostname-encode_example =
    peek_hostname-encode 3 1 hello (grease ∷ []) (versions ∷ []) host (7 ∷ []) ((1 ∷ []) ∷ [])
      hello-IsHello (omega arith) refl (omega arith)

-- The first segment ends behind "geo".
peek_hostname-cut_example :
    (peek_hostname true (take 71 (encode 3 1 hello) ∷ [])).1 ≡ codes "geo" ++ 0 ∷ 0 ∷ 0 ∷ []
peek_hostname-cut_example =
    peek_hostname-cut 3 1 hello (grease ∷ []) (versions ∷ []) (codes "geo") (codes ".io")
      (take 71 (encode 3 1 hello)) [] hello-IsHello (omega arith) refl refl (omega arith)
