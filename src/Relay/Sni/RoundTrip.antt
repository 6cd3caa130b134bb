-- ===== src/Relay/Sni/RoundTrip.antt =====
-- `parseSNI` against the encoding of a whole ClientHello.
use vpnproxy.Base.{
  ℕ, ◌+◌, ◌≤◌, List, [], ◌∷◌, ◌++◌, some, ◌≡◌, refl, ap, sym, ◌∙◌, arith, Bytes, length,
  length-append, append-nil, append_assoc, All, take-length,
}
use vpnproxy.Relay.Slice.{returns}
use vpnproxy.Relay.Sni.{parse_sni}
use vpnproxy.Relay.Sni.Encode.{
  Extension, encode_ext, encode_exts, sni_ext, Hello, encode_front, encode_body, encode_header,
  encode, IsOther, IsHello,
}
use vpnproxy.Relay.Sni.Window.{sni_front, front_len, parse_sni_window}

encode_exts-append :
    (xs ys : List Extension) → encode_exts (xs ++ ys) ≡ encode_exts xs ++ encode_exts ys
encode_exts-append [] ys = refl
encode_exts-append (x ∷ xs) ys =
    ap (◌++◌ (encode_ext x)) (encode_exts-append xs ys)
    ∙ sym (append_assoc (encode_ext x) (encode_exts xs) (encode_exts ys))

pub encode_front-append :
    (h : Hello) (n : ℕ) (xs ys : Bytes) → encode_front h n xs ++ ys ≡ encode_front h n (xs ++ ys)
encode_front-append h n xs ys = simp append_assoc

pub length-encode_front :
    (h : Hello) (n : ℕ) (xs : Bytes)
    → IsHello h
    → length (encode_front h n xs) ≡ front_len h + length xs
length-encode_front h n xs ok = simp length-append (omega (arith, ok.head_len))

module _ (h : Hello) (before after : List Extension) (name : Bytes)
    (exts : h.exts ≡ before ++ sni_ext name ∷ after) where
  encode_exts_split :
      (slack : Bytes)
      → encode_exts h.exts ++ slack
        ≡ encode_exts before
          ++ sni_front
              (length (sni_ext name).body)
              (3 + length name)
              (length name)
              (name ++ (encode_exts after ++ slack))
  encode_exts_split slack = rw (exts, encode_exts-append) (simp append_assoc)

  pub encode_exts_parts :
      encode_exts h.exts
      ≡ encode_exts before
        ++ sni_front
            (length (sni_ext name).body)
            (3 + length name)
            (length name)
            (name ++ encode_exts after)
  encode_exts_parts = sym (append-nil (encode_exts h.exts)) ∙ encode_exts_split [] ∙ simp append-nil

-- The server name of a whole ClientHello, the lengths of whose parts fit their fields, is found,
-- whatever extensions of other kinds come before it, whatever extensions come after it, and whatever
-- was read or left over behind the record.
pub parse_sni-encode :
    (major minor : ℕ) (h : Hello) (before after : List Extension) (name slack : Bytes) (k : ℕ)
    → IsHello h
    → All IsOther before
    → h.exts ≡ before ++ sni_ext name ∷ after
    → k ≤ length slack
    → parse_sni
        (record { len = length (encode major minor h) + k; mem = encode major minor h ++ slack })
      ≡ returns (some name)
parse_sni-encode major minor h before after name slack k ok others e fits =
    let rest = name ++ (encode_exts after ++ slack) in
    let n = length (encode_exts h.exts) in
    let split = encode_exts_split h before after name e in
    let all = encode_exts h.exts in
    let front = encode_exts before in
    let opened = sni_front (length (sni_ext name).body) (3 + length name) (length name) rest in
    let parts : length rest ≡ length name + (length (encode_exts after) + length slack) = omega (
      arith,
      length-append name (encode_exts after ++ slack),
      length-append (encode_exts after) slack,
    ) in
    let size : n + length slack ≡ length front + (9 + length rest) =
      omega (arith, ap length (split slack), length-append all slack, length-append front opened) in
    let body : length (encode_body h) ≡ front_len h + n = length-encode_front h n all ok in
    let joined : encode_body h ++ slack ≡ encode_front h n (front ++ opened) =
      encode_front-append h n all slack ∙ ap (encode_front h n) (split slack) in
    parse_sni_window _ h before (length name) rest ok others (record {
      major = major;
      minor = minor;
      rec_len = 4 + length (encode_body h);
      msg_len = length (encode_body h);
      exts_len = n;
      ext_len = length (sni_ext name).body;
      list_len = 3 + length name;
      memory =
          ap
            (◌++◌ (encode_header major minor (4 + length (encode_body h)) (length (encode_body h))))
            joined;
      filled = omega (arith, body);
      bounded = omega (arith, length-append (encode major minor h) slack);
      in_record = omega (arith, body);
      reaches = omega arith;
      in_memory = omega arith;
      ext_two = omega arith;
      ext_in_memory = omega arith;
      list_three = omega arith;
      list_in_memory = omega arith;
      name_in_memory = omega arith;
    })
    ∙ ap (λ x. returns (some x)) (take-length (length name) name (encode_exts after ++ slack) refl)
