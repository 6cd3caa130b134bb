-- ===== src/Wireguard/Handshake.antt =====
-- The polls of `waitForHandshake` (wireguard.go).
use vpnproxy.Base.{ℕ, zero, suc, ◌+◌, ◌≤◌, ◌<◌, true, false, List, Option, none, some, ◌≡◌}
use vpnproxy.Go.Duration.{Duration}
use vpnproxy.Wireguard.{PeerStatus}
use vpnproxy.Wireguard.Peers.{has_handshake, Waited, connected, query_failed, timed_out, poll}

-- 200 * time.Millisecond
abbrev pub pause : ℕ
pause = 200_000_000

module _ (status : ℕ → Option (List PeerStatus)) (clock : ℕ → ℕ) where
  -- Poll `i` sees no handshake, before the deadline.
  pub record IsQuiet (deadline i : ℕ) : Type 0 where
    pub peers : List PeerStatus
    pub polled : status i ≡ some peers
    pub silent : has_handshake peers ≡ false
    pub early : clock i ≤ deadline

  -- Why poll `i` is the last one.
  pub data Last (deadline i : ℕ) : Waited → Type 0 where
    by_error : status i ≡ none → Last deadline i query_failed
    by_peer :
        {peers : List PeerStatus}
        → status i ≡ some peers
        → has_handshake peers ≡ true
        → Last deadline i connected
    by_clock :
        {peers : List PeerStatus}
        → status i ≡ some peers
        → has_handshake peers ≡ false
        → deadline < clock i
        → Last deadline i timed_out

  -- From poll `i` on, `d` polls are quiet and the next one is the last.
  abbrev pub EndsAt : ℕ → ℕ → ℕ → Waited → Type 0
  EndsAt deadline i zero r = Last deadline i r
  EndsAt deadline i (suc d) r = IsQuiet deadline i × EndsAt deadline (i + 1) d r

  abbrev Ends : ℕ → ℕ → ℕ → Type 0
  Ends deadline i fuel =
      (d : ℕ) × (r : Waited) × (d < fuel)
      × EndsAt deadline i d r
      × (poll status clock fuel i deadline ≡ some r)
