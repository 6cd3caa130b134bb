-- ===== src/Wireguard/Fields.antt =====
-- The fields of a peer's report, set one by one, give its status.
use vpnproxy.Base.{
  ℕ, zero, suc, ◌^◌, ◌<◌, List, [], ◌∷◌, ◌++◌, append-nil, append_assoc, map, Option, none, some,
  ◌≡◌, refl, sym, ap, ◌∙◌, Bytes, All,
}
use vpnproxy.Go.Text.{equal}
use vpnproxy.Go.Text.Laws.{Lacks}
use vpnproxy.Go.Strconv.{atoi, itoa}
use vpnproxy.Go.Strconv.Laws.{atoi-itoa, parse_uint-itoa}
use vpnproxy.Wireguard.{Prefix, PeerStatus, new_peer, set_field, handshake_time, add_prefix}
use vpnproxy.Wireguard.Report.{
  Field, Allowed, Report, endpoint_fields, counter_fields, allowed_field, peer_fields, endpoint_of,
  time_of, status, IsReport,
}

module _ (parse_prefix : Bytes → Option Prefix) where
  abbrev pub set_fields : List Field → PeerStatus → PeerStatus
  set_fields [] p = p
  set_fields (f ∷ fs) p = set_fields fs (set_field parse_prefix f.key f.val p)

  set_fields-append :
      (fs gs : List Field) (p : PeerStatus)
      → set_fields (fs ++ gs) p ≡ set_fields gs (set_fields fs p)
  set_fields-append [] gs p = refl
  set_fields-append (f ∷ fs) gs p = set_fields-append fs gs (set_field parse_prefix f.key f.val p)

  abbrev with_allowed : PeerStatus → List Prefix → PeerStatus
  with_allowed p more = record p { allowed_ips = p.allowed_ips ++ more }

  set_fields-allowed :
      (as' : List Allowed) (p : PeerStatus)
      → All (λ a. Lacks b'\n' a.cidr × (parse_prefix a.cidr ≡ some a.prefix)) as'
      → set_fields (map allowed_field as') p ≡ with_allowed p (map (λ a. a.prefix) as')
  unfolding set_field equal
  set_fields-allowed [] p h =
      ap (λ x. record p { allowed_ips = x }) (sym (append-nil p.allowed_ips))
  set_fields-allowed (a ∷ as') p ((_, e), h) =
      ap
        (λ x.
          set_fields (map allowed_field as')
            (record p { allowed_ips = add_prefix x p.allowed_ips }))
        e
      ∙ set_fields-allowed as' (with_allowed p (a.prefix ∷ [])) h
      ∙ ap (λ x. record p { allowed_ips = x })
          (append_assoc p.allowed_ips (a.prefix ∷ []) (map (λ a. a.prefix) as'))

  handshake_time-of : (n : ℕ) → n < 2 ^ 63 → handshake_time (atoi (itoa n)) none ≡ time_of n
  handshake_time-of zero h = rw (atoi-itoa zero h)
  handshake_time-of (suc n) h = rw (atoi-itoa (suc n) h)

  set_fields-endpoint :
      (e : Option Bytes)
      → set_fields (endpoint_fields e) new_peer ≡ record new_peer { endpoint = endpoint_of e }
  unfolding set_field equal
  set_fields-endpoint none = refl
  set_fields-endpoint (some e) = refl

  set_fields-counters :
      (r : Report) (e : Bytes)
      → r.seconds < 2 ^ 63
      → r.tx < 2 ^ 64
      → r.rx < 2 ^ 64
      → set_fields (counter_fields r) (record new_peer { endpoint = e }) ≡ record {
        endpoint = e;
        allowed_ips = [];
        last_handshake = time_of r.seconds;
        tx_bytes = r.tx;
        rx_bytes = r.rx;
      }
  unfolding set_field equal
  set_fields-counters r e hs ht hr =
      rw (handshake_time-of r.seconds hs, parse_uint-itoa r.tx ht, parse_uint-itoa r.rx hr)

  pub set_fields-peer :
      (r : Report) → IsReport parse_prefix r → set_fields (peer_fields r) new_peer ≡ status r
  unfolding set_field equal
  set_fields-peer r h =
      set_fields-append (endpoint_fields r.endpoint)
        (counter_fields r ++ map allowed_field r.allowed) new_peer
      ∙ ap (set_fields (counter_fields r ++ map allowed_field r.allowed))
          (set_fields-endpoint r.endpoint)
      ∙ set_fields-append (counter_fields r) (map allowed_field r.allowed)
          (record new_peer { endpoint = endpoint_of r.endpoint })
      ∙ ap (set_fields (map allowed_field r.allowed))
          (set_fields-counters r (endpoint_of r.endpoint) h.seconds_size h.tx_size h.rx_size)
      ∙ set_fields-allowed r.allowed (record (status r) { allowed_ips = [] }) h.allowed_lines
