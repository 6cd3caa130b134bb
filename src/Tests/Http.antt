-- ===== src/Tests/Http.antt =====
-- `parseHTTPHost` on requests (relay.go, relay_test.go).
use vpnproxy.Base.{[], ◌∷◌, ◌++◌, none, some, ◌≡◌, refl, arith, Bytes, codes, true}
use vpnproxy.Go.Text.{contains}
use vpnproxy.Go.Net.{join_host_port}
use vpnproxy.Relay.Http.{crlf, parse_http_host}
use vpnproxy.Relay.Http.Header.{IsSkipped, lines_then, header, IsHost, parse_http_host-host_port}
use vpnproxy.Relay.Peek.{peek_hostname}
use vpnproxy.Relay.Peek.Sniff.{peek_hostname-host_port}

abbrev request_line : Bytes
request_line = codes "GET / HTTP/1.1"

plain_host :
    parse_http_host (codes "GET / HTTP/1.1\r\nHost: example.internal\r\nUser-Agent: curl\r\n\r\n")
    ≡ some (codes "example.internal")
unfolding parse_http_host
plain_host = refl

lowercase_name :
    parse_http_host (codes "GET / HTTP/1.1\r\nhost: example.internal:8080\r\n\r\n")
    ≡ some (codes "example.internal")
unfolding parse_http_host
lowercase_name = refl

no_host_header : parse_http_host (codes "GET / HTTP/1.1\r\nUser-Agent: curl\r\n\r\n") ≡ none
unfolding parse_http_host
no_host_header = refl

-- An IPv6 host without a port keeps its brackets: there is no port to cut off.
bracketed_host :
    parse_http_host (codes "GET / HTTP/1.1\r\nHost: [::1]\r\n\r\n") ≡ some (codes "[::1]")
unfolding parse_http_host
bracketed_host = refl

request_line-IsSkipped : IsSkipped request_line
unfolding parse_http_host
request_line-IsSkipped = (omega arith, refl)

geo-IsHost : IsHost (codes "geo")
geo-IsHost = record {
  visible = omega arith;
  no_open = omega arith;
  no_close = omega arith;
  some_byte = λ e. cc;
}

parse_http_host-host_port_example :
    parse_http_host (
      lines_then (request_line ∷ []) (
        header (codes "Host") ((b' ' ∷ []) ++ join_host_port (codes "geo") (codes "80"))
        ++ (crlf ++ [])))
    ≡ some (codes "geo")
parse_http_host-host_port_example =
    parse_http_host-host_port (request_line ∷ []) (b' ' ∷ []) (codes "geo") (codes "80") []
      (request_line-IsSkipped, tt) (omega arith) geo-IsHost (omega arith)

peek_hostname-host_port_example :
    (peek_hostname true (
      lines_then (request_line ∷ []) (
        header (codes "Host") ((b' ' ∷ []) ++ join_host_port (codes "geo") (codes "80"))
        ++ (crlf ++ []))
      ∷ [])).1
    ≡ codes "geo"
unfolding join_host_port contains
peek_hostname-host_port_example =
    peek_hostname-host_port b'G' (codes "ET / HTTP/1.1") [] (b' ' ∷ []) (codes "geo") (codes "80")
      [] [] (omega arith) (request_line-IsSkipped, tt) (omega arith) geo-IsHost (omega arith)
      (omega arith)
