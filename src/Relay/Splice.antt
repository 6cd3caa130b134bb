-- ===== src/Relay/Splice.antt =====
-- The two goroutines of `relayConn` that copy the traffic, as interleaved steps. Each runs `io.Copy`
-- from its source to its sink and half-closes the sink; `relayConn` goes on when both are done.
pub mod Invariant
use vpnproxy.Base.{ℕ, ◌+◌, Bool, true, false, [], ◌++◌, ◌≡◌, ◌≢◌, Bytes, length}

-- One direction: what the source has still to deliver, whether the peer there has ended its stream, what
-- the sink has got, whether the sink's write side is closed, and the byte count of `io.Copy`, and whether
-- that is done.
pub record Pipe : Type 0 where
  pub source : Bytes
  pub ended : Bool
  pub sink : Bytes
  pub half_closed : Bool
  pub copied : ℕ
  pub done : Bool

abbrev pub pipe : Bytes → Pipe
pipe source = record {
  source = source;
  ended = false;
  sink = [];
  half_closed = false;
  copied = 0;
  done = false;
}

-- What a goroutine may do next. A chunk is read and written; all is read, and the peer has ended its
-- stream; or a read or a write fails, and the copy stops early. The half close follows in either case.
-- Where all is read and the peer has not ended its stream, the read blocks, and only a failure ends it.
pub data Copy (p : Pipe) : Pipe → Type 0 where
  chunk :
      (c rest : Bytes)
      → p.done ≡ false
      → c ≢ []
      → p.source ≡ c ++ rest
      → Copy p (record p { source = rest; sink = p.sink ++ c; copied = p.copied + length c })
  ends :
      p.done ≡ false
      → p.source ≡ []
      → p.ended ≡ true
      → Copy p (record p { half_closed = true; done = true })
  fails : p.done ≡ false → Copy p (record p { half_closed = true; done = true })

pub record Pair : Type 0 where
  pub up : Pipe
  pub down : Pipe

abbrev pub start : Bytes → Bytes → Pair
start client upstream = record { up = pipe client; down = pipe upstream }

-- The scheduler runs a step of either goroutine, or a peer ends its stream.
pub data Step (s : Pair) : Pair → Type 0 where
  upward : {p : Pipe} → Copy s.up p → Step s (record s { up = p })
  downward : {p : Pipe} → Copy s.down p → Step s (record s { down = p })
  client_ends : s.up.ended ≡ false → Step s (record s { up = record s.up { ended = true } })
  upstream_ends : s.down.ended ≡ false → Step s (record s { down = record s.down { ended = true } })

pub data Run (s : Pair) : Pair → Type 0 where
  here : Run s s
  next : {t u : Pair} → Run s t → Step t u → Run s u

-- Both receives from `done` have succeeded.
abbrev pub IsFinished : Pair → Type 0
IsFinished s = (s.up.done ≡ true) × (s.down.done ≡ true)
