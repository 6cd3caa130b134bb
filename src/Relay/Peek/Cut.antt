-- ===== src/Relay/Peek/Cut.antt =====
-- What `peekHostname` makes of a ClientHello of which the first read got a part only.
use mathlib.Core.List.{append_cancel_right}
use vpnproxy.Base.{
  ℕ, ◌+◌, ◌-◌, ◌≤◌, true, List, ◌∷◌, ◌++◌, append_assoc, ◌≡◌, sym, ap, ◌∙◌, arith, Bytes, length,
  replicate, All, length-append, length-replicate, take-replicate,
}
use vpnproxy.Relay.Sni.Encode.{
  Extension, encode_exts, sni_ext, Hello, IsHello, IsOther, encode, encode_body, encode_front,
  encode_header,
}
use vpnproxy.Relay.Sni.Window.{sni_front, front_len, IsWindow, parse_sni_window}
use vpnproxy.Relay.Sni.RoundTrip.{length-encode_front, encode_front-append, encode_exts_parts}
use vpnproxy.Relay.Peek.{buf_len, peek_hostname}
use vpnproxy.Relay.Peek.Sniff.{peek_hostname-first, sniff-sni}

module _ (major minor : ℕ) (h : Hello) (before after : List Extension) (part missing : Bytes)
    (exts : h.exts ≡ before ++ sni_ext (part ++ missing) ∷ after) where
  abbrev name : Bytes
  name = part ++ missing

  -- The hello up to the cut, `rest` behind the front of the extension.
  abbrev upto : Bytes → Bytes
  upto rest =
      encode_header major minor (4 + length (encode_body h)) (length (encode_body h))
      ++ encode_front h (length (encode_exts h.exts)) (
          encode_exts before
          ++ sni_front (length (sni_ext name).body) (3 + length name) (length name) rest)

  upto-append : (xs ys : Bytes) → upto xs ++ ys ≡ upto (xs ++ ys)
  upto-append xs ys =
      ap (◌++◌ (encode_header major minor (4 + length (encode_body h)) (length (encode_body h)))) (
        encode_front-append h _ _ ys
        ∙ ap (encode_front h (length (encode_exts h.exts)))
            (append_assoc (encode_exts before) _ ys))

  encode-upto : encode major minor h ≡ upto part ++ (missing ++ encode_exts after)
  encode-upto =
      ap
        (λ x.
          encode_header major minor (4 + length (encode_body h)) (length (encode_body h))
          ++ encode_front h (length (encode_exts h.exts)) x)
        (encode_exts_parts h before after name exts)
      ∙ ap upto (append_assoc part missing (encode_exts after))
      ∙ sym (upto-append part (missing ++ encode_exts after))

  length-upto :
      (rest : Bytes)
      → IsHello h
      → length (upto rest) ≡ 18 + front_len h + length (encode_exts before) + length rest
  length-upto rest ok = omega (
    arith,
    length-encode_front h (length (encode_exts h.exts))
        (encode_exts before
          ++ sni_front (length (sni_ext name).body) (3 + length name) (length name) rest)
        ok,
    length-append (encode_exts before)
        (sni_front (length (sni_ext name).body) (3 + length name) (length name) rest),
  )

  upto-IsWindow :
      (k : ℕ)
      → IsHello h
      → length missing + length (encode_exts after) ≤ k
      → IsWindow
          (record { len = length (upto part); mem = upto part ++ replicate k 0 })
          h
          before
          (length name)
          (part ++ replicate k 0)
  upto-IsWindow k ok enough =
      let zeros = replicate {A = ℕ} k 0 in
      let body : length (encode_body h) ≡ front_len h + length (encode_exts h.exts) =
        length-encode_front h _ (encode_exts h.exts) ok in
      let all : length (encode_exts h.exts)
          ≡ length (encode_exts before) + 9 + length name + length (encode_exts after) =
        omega (
          arith,
          ap length (encode_exts_parts h before after name exts),
          length-append (encode_exts before) (
              sni_front (length (sni_ext name).body) (3 + length name) (length name)
                (name ++ encode_exts after)),
          length-append name (encode_exts after),
        ) in
      let named : length name ≡ length part + length missing = length-append part missing in
      let filled : length (part ++ zeros) ≡ length part + k =
        omega (arith, length-append part zeros, length-replicate {A = ℕ} k 0) in
      record {
        major = major;
        minor = minor;
        rec_len = 4 + length (encode_body h);
        msg_len = length (encode_body h);
        exts_len = length (encode_exts h.exts);
        ext_len = length (sni_ext name).body;
        list_len = 3 + length name;
        memory = upto-append part zeros;
        filled = omega (arith, length-upto part ok);
        bounded = omega (arith, length-append (upto part) zeros);
        in_record = omega arith;
        reaches = omega arith;
        in_memory = omega arith;
        ext_two = omega arith;
        ext_in_memory = omega arith;
        list_three = omega arith;
        list_in_memory = omega arith;
        name_in_memory = omega arith;
      }

  length-encode-upto :
      IsHello h
      → length (encode major minor h)
        ≡ length (upto part) + (length missing + length (encode_exts after))
  length-encode-upto ok = omega (
    arith,
    ap length encode-upto,
    length-append (upto part) (missing ++ encode_exts after),
    length-append missing (encode_exts after),
  )

  peek_hostname-upto :
      (pieces : List Bytes)
      → IsHello h
      → All IsOther before
      → length (encode major minor h) ≤ buf_len
      → (peek_hostname true (upto part ∷ pieces)).1 ≡ part ++ replicate (length missing) 0
  peek_hostname-upto pieces ok others fits =
      let k = buf_len - length (upto part) in
      let size = length-encode-upto ok in
      peek_hostname-first (upto part) pieces (λ x. cc) (omega arith)
      ∙ sniff-sni (upto part) _ (
          parse_sni_window _ h before (length name) (part ++ replicate k 0) ok others
            (upto-IsWindow k ok (omega arith)))
      ∙ take-replicate (length name) (length missing) k part 0 (length-append part missing)
          (omega arith)

-- A known flaw: when the first read ends in the middle of the server name of a ClientHello that would
-- fit the buffer, and the lengths of whose parts fit their fields, `parseSNI` does not fail. Its
-- slice expressions reach into the rest of the buffer, within the capacity, so the name that is
-- sniffed is the part that was read with a zero byte for each byte that is missing.
pub peek_hostname-cut :
    (major minor : ℕ) (h : Hello) (before after : List Extension) (part missing sent : Bytes)
    (pieces : List Bytes)
    → IsHello h
    → All IsOther before
    → h.exts ≡ before ++ sni_ext (part ++ missing) ∷ after
    → encode major minor h ≡ sent ++ (missing ++ encode_exts after)
    → length (encode major minor h) ≤ buf_len
    → (peek_hostname true (sent ∷ pieces)).1 ≡ part ++ replicate (length missing) 0
peek_hostname-cut major minor h before after part missing sent pieces ok others e cut fits =
    let up = upto major minor h before after part missing e in
    let same : sent ≡ up part =
      append_cancel_right sent (up part) (missing ++ encode_exts after)
        (sym cut ∙ encode-upto major minor h before after part missing e) in
    ap (λ x. (peek_hostname true (x ∷ pieces)).1) same
    ∙ peek_hostname-upto major minor h before after part missing e pieces ok others fits
