-- ===== src/Wireguard/Status.antt =====
-- `parsePeerStatuses` on the report of a device (wireguard.go).
use vpnproxy.Base.{
  zero, true, List, [], ◌∷◌, ◌++◌, append-nil, append_assoc, map, Option, ◌≡◌, ◌≢◌, refl, sym, ap,
  ◌∙◌, arith, Bytes, codes, All, All-append,
}
use vpnproxy.Go.Text.{equal, split, split_from, cut}
use vpnproxy.Go.Text.Laws.{Lacks, cut-Lacks, split_from-byte}
use vpnproxy.Wireguard.{
  Prefix, PeerStatus, new_peer, update_last, set_field, read_line, read_lines, parse_peer_statuses,
}
use vpnproxy.Wireguard.Report.{
  Field, field, line, text, IsField, Report, peer_fields, reports, status, IsReport,
}
use vpnproxy.Wireguard.Fields.{set_fields, set_fields-peer}
use vpnproxy.Wireguard.Lines.{peer_fields-IsField}

module _ (parse_prefix : Bytes → Option Prefix) where
  abbrev read : List PeerStatus → List Bytes → List PeerStatus
  read = read_lines parse_prefix

  update_last-snoc :
      (f : PeerStatus → PeerStatus) (ps : List PeerStatus) (p : PeerStatus)
      → update_last f (ps ++ p ∷ []) ≡ ps ++ f p ∷ []
  unfolding update_last
  update_last-snoc f [] p = refl
  update_last-snoc f (q ∷ []) p = refl
  update_last-snoc f (q ∷ r ∷ ps) p = ap (q ∷◌) (update_last-snoc f (r ∷ ps) p)

  read_line-field :
      (ps : List PeerStatus) (p : PeerStatus) (f : Field)
      → IsField f
      → read_line parse_prefix (ps ++ p ∷ []) (line f)
        ≡ ps ++ set_field parse_prefix f.key f.val p ∷ []
  unfolding read_line
  read_line-field ps p f h =
      rw (read_line, cut-Lacks f.key f.val b'=' h.key_ends, h.no_peer) (update_last-snoc _ ps p)

  read_line-none : (f : Field) → IsField f → read_line parse_prefix [] (line f) ≡ []
  unfolding read_line update_last
  read_line-none f h = rw (read_line, cut-Lacks f.key f.val b'=' h.key_ends, h.no_peer)

  read_lines-fields :
      (fs : List Field) (ps : List PeerStatus) (p : PeerStatus) (more : List Bytes)
      → All IsField fs
      → read (ps ++ p ∷ []) (map line fs ++ more)
        ≡ read (ps ++ set_fields parse_prefix fs p ∷ []) more
  unfolding read_lines
  read_lines-fields [] ps p more h = refl
  read_lines-fields (f ∷ fs) ps p more (hf, h) =
      ap (λ x. read x (map line fs ++ more)) (read_line-field ps p f hf)
      ∙ read_lines-fields fs ps (set_field parse_prefix f.key f.val p) more h

  read_lines-none :
      (fs : List Field) (more : List Bytes)
      → All IsField fs
      → read [] (map line fs ++ more) ≡ read [] more
  unfolding read_lines
  read_lines-none [] more h = refl
  read_lines-none (f ∷ fs) more (hf, h) =
      ap (λ x. read x (map line fs ++ more)) (read_line-none f hf) ∙ read_lines-none fs more h

  -- The text is split where its lines end; an empty line is left.
  split-text :
      (fs : List Field)
      → All (λ f. Lacks b'\n' (line f)) fs
      → split_from (b'\n' ∷ []) zero (text fs) ≡ map line fs ++ [] ∷ []
  unfolding split_from
  split-text [] h = refl
  split-text (f ∷ fs) (hf, h) =
      split_from-byte b'\n' (line f) (text fs) hf ∙ ap (line f ∷◌) (split-text fs h)

  read_line-new :
      (ps : List PeerStatus) (f : Field)
      → Lacks b'=' f.key
      → equal f.key (codes "public_key") ≡ true
      → read_line parse_prefix ps (line f) ≡ ps ++ new_peer ∷ []
  unfolding read_line
  read_line-new ps f ends starts = rw (read_line, cut-Lacks f.key f.val b'=' ends, starts)

  read_line-peer :
      (ps : List PeerStatus) (k : Bytes)
      → read_line parse_prefix ps (line (field (codes "public_key") k)) ≡ ps ++ new_peer ∷ []
  unfolding equal
  read_line-peer ps k = read_line-new ps (field (codes "public_key") k) (omega arith) refl

  map-line-append :
      (fs gs : List Field) (more : List Bytes)
      → map line (fs ++ gs) ++ more ≡ map line fs ++ (map line gs ++ more)
  map-line-append [] gs more = refl
  map-line-append (f ∷ fs) gs more = ap (line f ∷◌) (map-line-append fs gs more)

  read_lines-reports :
      (rs : List Report) (ps : List PeerStatus) (more : List Bytes)
      → All (IsReport parse_prefix) rs
      → read ps (map line (reports rs) ++ more) ≡ read (ps ++ map status rs) more
  unfolding read_lines
  read_lines-reports [] ps more h = ap (λ x. read x more) (sym (append-nil ps))
  read_lines-reports (r ∷ rs) ps more (hr, h) =
      ap (λ x. read x (map line (peer_fields r ++ reports rs) ++ more))
        (read_line-peer ps r.public_key)
      ∙ ap (read (ps ++ new_peer ∷ [])) (map-line-append (peer_fields r) (reports rs) more)
      ∙ read_lines-fields (peer_fields r) ps new_peer _ (peer_fields-IsField parse_prefix r hr)
      ∙ ap (λ x. read (ps ++ x ∷ []) (map line (reports rs) ++ more))
          (set_fields-peer parse_prefix r hr)
      ∙ read_lines-reports rs (ps ++ status r ∷ []) more h
      ∙ ap (λ x. read x more) (append_assoc ps (status r ∷ []) (map status rs))

  All-line : (fs : List Field) → All IsField fs → All (λ f. Lacks b'\n' (line f)) fs
  All-line [] h = tt
  All-line (f ∷ fs) (hf, h) = (hf.one_line, All-line fs h)

  reports-one_line :
      (rs : List Report)
      → All (IsReport parse_prefix) rs
      → All (λ f. Lacks b'\n' (line f)) (reports rs)
  reports-one_line [] h = tt
  reports-one_line (r ∷ rs) (hr, h) = (
    All-append (λ c. c ≢ b'\n') (codes "public_key") (b'=' ∷ r.public_key) (omega arith)
        (omega arith, hr.key_line),
    All-append (λ f. Lacks b'\n' (line f)) (peer_fields r) (reports rs)
        (All-line (peer_fields r) (peer_fields-IsField parse_prefix r hr)) (reports-one_line rs h),
  )

  -- The status of every peer is read back, in order, from the lines that a device reports: any lines of
  -- its own first, then those of each peer. The numbers are below the limits of their types, no value
  -- has a line end, and each allowed IP is a prefix that is parsed.
  pub parse_peer_statuses-reports :
      (device : List Field) (rs : List Report)
      → All IsField device
      → All (IsReport parse_prefix) rs
      → parse_peer_statuses parse_prefix (text (device ++ reports rs)) ≡ map status rs
  unfolding parse_peer_statuses split read_lines read_line cut
  parse_peer_statuses-reports device rs hd h =
      ap (read []) (
        split-text (device ++ reports rs) (
          All-append (λ f. Lacks b'\n' (line f)) device (reports rs) (All-line device hd)
            (reports-one_line rs h)))
      ∙ ap (read []) (map-line-append device (reports rs) ([] ∷ []))
      ∙ read_lines-none device _ hd
      ∙ read_lines-reports rs [] ([] ∷ []) h
