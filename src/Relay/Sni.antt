-- ===== src/Relay/Sni.antt =====
-- `parseSNI` of relay.go, statement by statement: the server name of a TLS ClientHello record.
pub mod Total
pub mod Encode
pub mod Walk
pub mod Window
pub mod RoundTrip
use vpnproxy.Base.{
  ℕ, zero, suc, ◌+◌, Bool, true, false, not, Option, none, some, Bytes, ltb, leb, ◌==◌,
  if◌then◌else◌,
}
use vpnproxy.Relay.Slice.{
  Outcome, returns, panics, exhausted, ◌>>=◌, Slice, index, slice, slice_from, text, big_endian,
}

-- The first entry of the server name list: a name of type 0 is the host.
unfoldable pub host_entry : Slice → Outcome (Option Bytes)
host_entry list = if ltb list.len 3 then returns none else do
  kind ← index list 0
  if not (kind == 0) then returns none else do
    name_len ← big_endian list 1
    name ← slice list 3 (3 + name_len)
    returns (some (text name))

-- The body of `if extType == 0x0000`.
unfoldable pub server_name : Slice → Outcome (Option Bytes)
server_name ext =
    if ltb ext.len 2
    then returns none
    else do list_len ← big_endian ext 0; list ← slice ext 2 (2 + list_len); host_entry list

-- `for len(exts) >= 4 { … }`, on fuel.
unfoldable pub extensions : ℕ → Slice → Outcome (Option Bytes)
extensions zero exts = exhausted
extensions (suc fuel) exts = elim (leb 4 exts.len) [
  | false ↦ returns none
  | true ↦ do
    ext_type ← big_endian exts 0
    ext_len ← big_endian exts 2
    ext ← slice exts 4 (4 + ext_len)
    elim (ext_type == 0) [
      | true ↦ server_name ext
      | false ↦ do rest ← slice_from exts (4 + ext_len); extensions fuel rest
    ]
]

-- The body of the ClientHello: version, random, session id, cipher suites and compression methods
-- are stepped over. Each round of the loop takes four bytes at least, so the fuel suffices.
unfoldable pub client_hello : Slice → Outcome (Option Bytes)
client_hello body = do
  session ← index body 34
  let p = 35 + session
  suites ← big_endian body p
  let q = p + (2 + suites)
  methods ← index body q
  let r = q + (1 + methods)
  if ltb body.len (r + 2) then returns none else do
    ext_len ← big_endian body r
    exts ← slice body (r + 2) (r + 2 + ext_len)
    extensions (suc exts.len) exts

-- The handshake message that a record holds.
unfoldable pub handshake : Slice → Outcome (Option Bytes)
handshake rec = if ltb rec.len 4 then returns none else do
  kind ← index rec 0
  if not (kind == 1) then returns none else do body ← slice_from rec 4; client_hello body

-- `rec[:recLen]` where the slice holds more than the record.
unfoldable pub cut_record : ℕ → Slice → Outcome Slice
cut_record rec_len rec = if ltb rec_len rec.len then slice rec 0 rec_len else returns rec

unfoldable pub record_body : Slice → Outcome (Option Bytes)
record_body hello = if ltb hello.len 5 then returns none else do
  kind ← index hello 0
  if not (kind == 0x16) then returns none else do
    rec_len ← big_endian hello 3
    rest ← slice_from hello 5
    rec ← cut_record rec_len rest
    handshake rec

-- The deferred `recover`: a panic is "not found".
abbrev pub recover {ℓ} : {A : Type ℓ} → Outcome (Option A) → Outcome (Option A)
recover panics = returns none
recover (returns r) = returns r
recover exhausted = exhausted

-- `parseSNI`; `none` is `ok == false`.
unfoldable pub parse_sni : Slice → Outcome (Option Bytes)
unfolding record_body handshake cut_record client_hello extensions server_name host_entry index
    slice slice_from big_endian
parse_sni hello = recover (record_body hello)
