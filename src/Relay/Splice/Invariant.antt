-- ===== src/Relay/Splice/Invariant.antt =====
-- The interleavings of the two copies of `relayConn` (relay.go).
use vpnproxy.Base.{
  ℕ, ◌+◌, true, [], ◌++◌, append_assoc, false, ◌≡◌, ◌≢◌, ◌⊎◌, refl, sym, ap, ◌∙◌, arith, Bytes,
  length, length-append, if◌then◌else◌,
}
use vpnproxy.Relay.Splice.{
  Pipe, pipe, Copy, chunk, ends, fails, Pair, start, Step, upward, downward, client_ends,
  upstream_ends, Run, here, next,
}

-- No byte is lost, repeated or moved; the count is right; and the half close comes with the end.
pub record IsFaithful (sent : Bytes) (p : Pipe) : Type 0 where
  pub whole : p.sink ++ p.source ≡ sent
  pub count : p.copied ≡ length p.sink
  pub closed : p.half_closed ≡ p.done

pipe-IsFaithful : (sent : Bytes) → IsFaithful sent (pipe sent)
pipe-IsFaithful sent = record { whole = refl; count = omega arith; closed = refl }

Copy-IsFaithful : {p q : Pipe} (sent : Bytes) → Copy p q → IsFaithful sent p → IsFaithful sent q
Copy-IsFaithful {p} sent (chunk c rest open_ some_ e) f = record {
  whole = append_assoc p.sink c rest ∙ ap (◌++◌ p.sink) (sym e) ∙ f.whole;
  count = omega (arith, f.count, length-append p.sink c);
  closed = f.closed;
}
Copy-IsFaithful sent (ends open_ e over) f = record {
  whole = f.whole;
  count = f.count;
  closed = refl;
}
Copy-IsFaithful sent (fails open_) f = record { whole = f.whole; count = f.count; closed = refl }

ended-IsFaithful :
    {p : Pipe} (sent : Bytes) → IsFaithful sent p → IsFaithful sent (record p { ended = true })
ended-IsFaithful sent f = record { whole = f.whole; count = f.count; closed = f.closed }

abbrev pub IsFaithfulPair : Bytes → Bytes → Pair → Type 0
IsFaithfulPair client upstream s = IsFaithful client s.up × IsFaithful upstream s.down

-- In every interleaving, at every moment and also when a copy fails: each side has received a prefix
-- of what the other sent, namely all but what is still unread, the byte counts are the numbers of
-- bytes received, and a side is half-closed exactly when the copy towards it has ended.
pub Run-IsFaithful :
    (client upstream : Bytes) {s : Pair}
    → Run (start client upstream) s
    → IsFaithfulPair client upstream s
Run-IsFaithful client upstream here = (pipe-IsFaithful client, pipe-IsFaithful upstream)
Run-IsFaithful client upstream (next r (upward c)) =
    let (u, d) = Run-IsFaithful client upstream r in (Copy-IsFaithful client c u, d)
Run-IsFaithful client upstream (next r (downward c)) =
    let (u, d) = Run-IsFaithful client upstream r in (u, Copy-IsFaithful upstream c d)
Run-IsFaithful client upstream (next r (client_ends open_)) =
    let (u, d) = Run-IsFaithful client upstream r in (ended-IsFaithful client u, d)
Run-IsFaithful client upstream (next r (upstream_ends open_)) =
    let (u, d) = Run-IsFaithful client upstream r in (u, ended-IsFaithful upstream d)

-- How much is left to do in one direction, with its peer's end, and in both.
abbrev pub work : Pipe → ℕ
work p = length p.source + (if p.done then 0 else 1) + (if p.ended then 0 else 1)

abbrev pub pair_work : Pair → ℕ
pair_work s = work s.up + work s.down

abbrev pub run_length : {s t : Pair} → Run s t → ℕ
run_length here = 0
run_length (next r c) = run_length r + 1

-- A goroutine reads and writes a chunk, or comes to the end; no failure and no peer's step counts.
abbrev pub Advances : {s t : Pair} → Step s t → Type 0
Advances (upward (chunk c rest open_ some_ e)) = Unit
Advances (upward (ends open_ e over)) = Unit
Advances (downward (chunk c rest open_ some_ e)) = Unit
Advances (downward (ends open_ e over)) = Unit
Advances _ = ⊥

abbrev pub CanAdvance : Pair → Type 0
CanAdvance s = (t : Pair) × (step : Step s t) × Advances step

-- A blocked read: all is read, and the peer has not ended its stream.
abbrev pub IsBlocked : Pipe → Type 0
IsBlocked p = (p.done ≡ false) × (p.source ≡ []) × (p.ended ≡ false)

-- No goroutine has anything to do before a peer ends its stream.
abbrev pub IsIdle : Pair → Type 0
IsIdle s =
    (IsBlocked s.up × ((s.down.done ≡ true) ⊎ IsBlocked s.down))
    ⊎ ((s.up.done ≡ true) × IsBlocked s.down)

-- A copy that is not done reads the rest, comes to the end, or is blocked.
data Next (p : Pipe) : Type 0 where
  is_done : p.done ≡ true → Next p
  reads : p.done ≡ false → p.source ≢ [] → Next p
  comes_to_end : p.done ≡ false → p.source ≡ [] → p.ended ≡ true → Next p
  is_blocked : IsBlocked p → Next p
