-- ===== src/Bind.antt =====
-- `ifaceBind` of bind_darwin.go: the socket of WireGuard's own packets, tied to an interface. `Open` and
-- `Close` hold the lock throughout; `Send` holds it only to read the socket. What the system gives for
-- a call is a parameter.
pub mod Sockets
pub mod Sent
use vpnproxy.Base.{
  ℕ, ◌+◌, Bool, true, false, not, List, [], ◌∷◌, Option, none, some, Bytes, ◌==◌, if◌then◌else◌,
  length,
}
use vpnproxy.Resolver.Ip.{Ip, to4}

-- `conn` is the socket of the bind, `sockets` those that the system has open, `next` the one that it
-- opens next.
pub record State : Type 0 where
  pub conn : Option ℕ
  pub sockets : List ℕ
  pub next : ℕ

abbrev pub new_bind : State
new_bind = record { conn = none; sockets = []; next = 0 }

-- What `Open` and `Close` return; `Open` returns the port.
pub data Result : Type 0 where
  opened : ℕ → Result
  already_open listen_failed : Result
  closed close_failed : Result

unfoldable pub close_socket : ℕ → List ℕ → List ℕ
close_socket id [] = []
close_socket id (j ∷ js) = let rest = close_socket id js in if j == id then rest else j ∷ rest

-- `listened` is what `ListenPacket` gives: the port of a new socket, or an error.
unfoldable pub open_at : Option ℕ → Option ℕ → State → State × Result
open_at (some id) listened s = (s, already_open)
open_at none none s = (s, listen_failed)
open_at none (some port) s =
    (record { conn = some s.next; sockets = s.next ∷ s.sockets; next = s.next + 1 }, opened port)

abbrev pub open_bind : Option ℕ → State → State × Result
open_bind listened s = open_at s.conn listened s

-- `closes` is the success of the socket's own `Close`.
unfoldable pub close_at : Option ℕ → Bool → State → State × Result
close_at none closes s = (s, closed)
close_at (some id) closes s = (
  record s { conn = none; sockets = close_socket id s.sockets },
  if closes then closed else close_failed,
)

abbrev pub close_bind : Bool → State → State × Result
close_bind closes s = close_at s.conn closes s

-- The endpoint of a peer: `StdNetEndpoint`, or that of some other bind.
pub data Endpoint : Type 0 where
  std_endpoint : Ip → ℕ → Endpoint
  other_endpoint : Endpoint

-- A datagram that a socket has sent.
pub record Datagram : Type 0 where
  pub socket : ℕ
  pub payload : Bytes
  pub to : Ip
  pub port : ℕ

pub data Sending : Type 0 where
  sent : Sending
  net_closed ipv4_only : Sending
  write_failed : Bytes → Sending

-- `write socket payload` is the success of `WriteToUDPAddrPort`.
module _ (write : ℕ → Bytes → Bool) where
  unfoldable pub write_all : ℕ → Ip → ℕ → List Bytes → List Datagram × Sending
  write_all c ip port [] = ([], sent)
  write_all c ip port (buf ∷ bufs) =
      let (datagrams, end) = write_all c ip port bufs in
      if write c buf
      then (record { socket = c; payload = buf; to = ip; port = port } ∷ datagrams, end)
      else ([], write_failed buf)

  unfoldable pub send : Option ℕ → Endpoint → List Bytes → List Datagram × Sending
  send none endpoint bufs = ([], net_closed)
  send (some c) other_endpoint bufs = ([], ipv4_only)
  send (some c) (std_endpoint ip port) bufs =
      if length ip == 4 then write_all c ip port bufs else ([], ipv4_only)

-- `netip.ParseAddrPort` is a parameter.
abbrev pub parse_endpoint : (Bytes → Option (Ip × ℕ)) → Bytes → Option Endpoint
parse_endpoint parse_addr_port s = elim (parse_addr_port s) [
  | none ↦ none
  | some (ip, port) ↦ some (std_endpoint ip port)
]

-- `recv`: one datagram, from the unmapped address of its sender; `none` is an error of the read.
unfoldable pub receive : Option (Bytes × (Ip × ℕ)) → Option (Bytes × Endpoint)
receive none = none
receive (some (b, (ip, port))) = elim (to4 ip) [
  | some four ↦ some (b, std_endpoint four port)
  | none ↦ some (b, std_endpoint ip port)
]
