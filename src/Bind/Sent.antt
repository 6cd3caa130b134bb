-- ===== src/Bind/Sent.antt =====
-- What `Send` has sent when it returns (bind_darwin.go).
use vpnproxy.Base.{
  ℕ, Bool, true, false, List, [], ◌∷◌, ◌++◌, map, Option, none, some, ◌≡◌, ◌≢◌, inl, inr, refl, ap,
  sym, ◌∙◌, Bytes, ◌==◌, length, All, Bool-cases,
}
use vpnproxy.Resolver.Ip.{Ip}
use vpnproxy.Bind.{
  Endpoint, std_endpoint, other_endpoint, Datagram, Sending, sent, net_closed, ipv4_only,
  write_failed, write_all, send,
}

abbrev pub IsIpv4 : Endpoint → Ip → ℕ → Type 0
IsIpv4 endpoint ip port = (endpoint ≡ std_endpoint ip port) × ((length ip == 4) ≡ true)

abbrev pub datagrams_to : ℕ → Ip → ℕ → List Bytes → List Datagram
datagrams_to c ip port bufs =
    map (λ buf. record { socket = c; payload = buf; to = ip; port = port }) bufs

module _ (write : ℕ → Bytes → Bool) where
  -- The datagrams go out in order, up to the first that cannot be written.
  pub data Writes (c : ℕ) (ip : Ip) (port : ℕ) (bufs : List Bytes)
      : List Datagram × Sending → Type 0 where
    all_sent :
        All (λ buf. write c buf ≡ true) bufs
        → Writes c ip port bufs (datagrams_to c ip port bufs, sent)
    stops :
        (before : List Bytes) (bad : Bytes) (after : List Bytes)
        → bufs ≡ before ++ bad ∷ after
        → All (λ buf. write c buf ≡ true) before
        → write c bad ≡ false
        → Writes c ip port bufs (datagrams_to c ip port before, write_failed bad)

  write_all-Writes :
      (c : ℕ) (ip : Ip) (port : ℕ) (bufs : List Bytes)
      → Writes c ip port bufs (write_all write c ip port bufs)
  unfolding write_all
  write_all-Writes c ip port [] = all_sent tt
  write_all-Writes c ip port (buf ∷ bufs) = elim (Bool-cases (write c buf)) [
    | inl written ↦ rw written (behind written _ (write_all-Writes c ip port bufs))
    | inr bad ↦ rw bad (stops [] buf bufs refl tt bad)
  ]
    where
      behind :
          write c buf ≡ true
          → (r : List Datagram × Sending) → Writes c ip port bufs r
          → Writes c ip port
              (buf ∷ bufs)
              (record { socket = c; payload = buf; to = ip; port = port } ∷ r.0, r.1)
      behind w r (all_sent ws) = all_sent (w, ws)
      behind w r (stops before bad after e ws b) =
          stops (buf ∷ before) bad after (ap (λ x. buf ∷ x) e) (w, ws) b

  -- The courses of `Send`, each with the facts that lead to it.
  pub data Sends (conn : Option ℕ) (endpoint : Endpoint) (bufs : List Bytes)
      : List Datagram × Sending → Type 0 where
    not_open : conn ≡ none → Sends conn endpoint bufs ([], net_closed)
    not_ipv4 :
        conn ≢ none
        → ((ip : Ip) (port : ℕ) → IsIpv4 endpoint ip port → ⊥)
        → Sends conn endpoint bufs ([], ipv4_only)
    writes :
        (c : ℕ) (ip : Ip) (port : ℕ) (r : List Datagram × Sending)
        → conn ≡ some c
        → IsIpv4 endpoint ip port
        → Writes c ip port bufs r
        → Sends conn endpoint bufs r

  -- Without a socket, or for an endpoint that is not a standard IPv4 one, nothing is sent. Else the
  -- datagrams go to the endpoint, through the socket that the bind had, in order: all of them, or those before
  -- the first that cannot be written, whose error is returned.
  pub send-Sends :
      (conn : Option ℕ) (endpoint : Endpoint) (bufs : List Bytes)
      → Sends conn endpoint bufs (send write conn endpoint bufs)
  unfolding send
  send-Sends none endpoint bufs = not_open refl
  send-Sends (some c) other_endpoint bufs = not_ipv4 (λ e. cc e) (λ ip port h. cc h.0)
  send-Sends (some c) (std_endpoint ip port) bufs = elim (Bool-cases (length ip == 4)) [
    | inl four ↦ rw four (writes c ip port _ refl (refl, four) (write_all-Writes c ip port bufs))
    | inr six ↦ rw six (not_ipv4 (λ e. cc e) (λ ip' port' h. not_four ip' port' six h))
  ]
    where
      not_four :
          (ip' : Ip) (port' : ℕ)
          → (length ip == 4) ≡ false
          → IsIpv4 (std_endpoint ip port) ip' port'
          → ⊥
      not_four ip' port' six (e, four) = cc (sym six ∙ ap (λ x. length x == 4) (same e) ∙ four)
        where
          same : std_endpoint ip port ≡ std_endpoint ip' port' → ip ≡ ip'
          same e = cc
