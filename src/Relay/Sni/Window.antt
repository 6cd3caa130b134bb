-- ===== src/Relay/Sni/Window.antt =====
-- `parseSNI` on memory that holds a ClientHello, of which it has read the part before the extensions.
use vpnproxy.Base.{
  ℕ, zero, suc, ◌+◌, ◌-◌, ◌≤◌, ◌<◌, min, List, [], ◌∷◌, ◌++◌, some, ◌≡◌, refl, ap, ◌∙◌, arith,
  Bytes, ltb, length, take, drop, le→ltb, ltb→lt, length-append, Bool-cases, false, inl, inr,
  append_assoc, All, length-drop,
}
use vpnproxy.Relay.Slice.{returns, Slice, slice_from, index-drop, slice_lem, drop-past}
use vpnproxy.Relay.Sni.{extensions, client_hello, handshake, cut_record, record_body, parse_sni}
use vpnproxy.Relay.Sni.Encode.{
  word, Extension, encode_ext, encode_exts, Hello, encode_front, encode_header, IsOther, IsHello,
}
use vpnproxy.Relay.Sni.Walk.{big_endian-word, extensions_found, extensions_skip}

-- The server name extension up to the name's first byte, with the four lengths that it states.
abbrev pub sni_front : ℕ → ℕ → ℕ → Bytes → Bytes
sni_front ext_len list_len n rest =
    word 0 ++ (word ext_len ++ (word list_len ++ (0 ∷ (word n ++ rest))))

module _ (ext_len list_len n : ℕ) (rest : Bytes) (two : 2 ≤ ext_len)
    (inside : ext_len ≤ 5 + length rest) (three : 3 ≤ list_len) (fits : list_len ≤ 3 + length rest)
    (has : n ≤ length rest) where
  extensions_lem :
      (before : List Extension) (fuel : ℕ) (exts : Slice)
      → All IsOther before
      → exts.mem ≡ encode_exts before ++ sni_front ext_len list_len n rest
      → length (encode_exts before) + 4 ≤ exts.len
      → exts.len ≤ length exts.mem
      → exts.len < fuel
      → extensions fuel exts ≡ returns (some (take n rest))
  extensions_lem before zero exts others e low high f = absurd (omega arith)
  extensions_lem [] (suc fuel) exts others e low high f =
      extensions_found fuel exts ext_len list_len n rest e (omega arith) two inside three fits has
  extensions_lem (x ∷ before) (suc fuel) exts (other, others) e low high f =
      let tail = encode_exts before ++ sni_front ext_len list_len n rest in
      let e' : exts.mem ≡ encode_ext x ++ tail =
        e ∙ append_assoc (encode_ext x) (encode_exts before) _ in
      let size : length exts.mem ≡ 4 + (length x.body + length tail) =
        omega (arith, ap length e', length-append x.body tail) in
      let parts : length (encode_exts (x ∷ before))
          ≡ 4 + (length x.body + length (encode_exts before)) =
        omega (arith, length-append x.body (encode_exts before)) in
      extensions_skip fuel exts x tail other e' (omega arith) high
      ∙ extensions_lem before fuel _ others refl (omega arith) (omega arith) (omega arith)

-- The number of bytes before the extensions.
abbrev pub front_len : Hello → ℕ
front_len h = 40 + length h.session + length h.suites + length h.methods

client_hello_lem :
    (h : Hello) (ext_len : ℕ) (rest : Bytes) (body : Slice)
    → IsHello h
    → body.mem ≡ encode_front h ext_len rest
    → front_len h ≤ body.len
    → ext_len ≤ length rest
    → client_hello body ≡ extensions (suc ext_len) (record { len = ext_len; mem = rest })
unfolding client_hello
client_hello_lem h ext_len rest body ok e low high =
    let m = body.mem in
    let p = 35 + length h.session in
    let q = p + (2 + length h.suites) in
    let r = q + (1 + length h.methods) in
    let at_session = drop-past 0 34 m h.head _ e (omega (arith, ok.head_len)) in
    let at_suites = drop-past 34 p m (length h.session ∷ h.session) _ at_session (omega arith) in
    let at_methods =
      drop-past p q m (word (length h.suites) ++ h.suites) _ at_suites (omega arith) in
    let at_exts = drop-past q r m (length h.methods ∷ h.methods) _ at_methods (omega arith) in
    let size : 2 + length rest ≡ length m - r = omega (arith, ap length at_exts, length-drop r m) in
    let long : ltb body.len (r + 2) ≡ false = le→ltb body.len (r + 2) (omega arith) in
    rw
      (
        index-drop body 34 (length h.session) _ at_session (omega arith),
        big_endian-word body p (length h.suites) _ at_suites (omega (arith, ok.suites_len)),
        index-drop body q (length h.methods) _ at_methods (omega arith),
        long,
        big_endian-word body r ext_len rest at_exts (omega arith),
        slice_lem body (r + 2) (r + 2 + ext_len) (omega arith) (omega arith),
        drop-past r (r + 2) m (word ext_len) rest at_exts refl,
      )
      (let same : r + 2 + ext_len - (r + 2) ≡ ext_len = omega arith in rw same)

cut_record_lem :
    (n : ℕ) (rest : Slice)
    → rest.len ≤ length rest.mem
    → cut_record n rest ≡ returns (record { len = min n rest.len; mem = rest.mem })
unfolding cut_record
cut_record_lem n rest h = elim (Bool-cases (ltb n rest.len)) [
  | inl more ↦
      let less = ltb→lt n rest.len more in
      let same : n - 0 ≡ min n rest.len = omega arith in
      rw (cut_record, more) (rw (slice_lem rest 0 n (omega arith) (omega arith), same))
  | inr all ↦ let same : min n rest.len ≡ rest.len = ground arith in rw (cut_record, all) (rw same)
]

handshake_lem :
    (rec : Slice) (a b c : ℕ) (rest : Bytes)
    → rec.mem ≡ 1 ∷ a ∷ b ∷ c ∷ rest
    → 4 ≤ rec.len
    → rec.len ≤ length rec.mem
    → handshake rec ≡ client_hello (record { len = rec.len - 4; mem = rest })
unfolding handshake slice_from
handshake_lem rec a b c rest e four high =
    let enough : ltb rec.len 4 ≡ false = le→ltb rec.len 4 four in
    rw (enough, index-drop rec 0 1 _ e (omega arith), slice_lem rec 4 rec.len four high, e) refl

record_body_lem :
    (major minor rec_len msg_len : ℕ) (rest : Bytes) (hello : Slice)
    → hello.mem ≡ encode_header major minor rec_len msg_len ++ rest
    → 9 ≤ hello.len
    → hello.len ≤ length hello.mem
    → 4 ≤ rec_len
    → record_body hello
      ≡ client_hello (record { len = min rec_len (hello.len - 5) - 4; mem = rest })
unfolding record_body slice_from
record_body_lem major minor rec_len msg_len rest hello e low high four =
    let enough : ltb hello.len 5 ≡ false = le→ltb hello.len 5 (omega arith) in
    let size : length hello.mem ≡ 9 + length rest = omega (arith, ap length e) in
    let left : Slice = record {
      len = hello.len - 5;
      mem = drop 5 (encode_header major minor rec_len msg_len ++ rest);
    } in
    rw
      (
        enough,
        index-drop hello 0 0x16 _ e (omega arith),
        big_endian-word hello 3 rec_len _ (ap (drop 3) e) (omega arith),
        slice_lem hello 5 hello.len (omega arith) high,
        ap (drop 5) e,
      )
      (rw (cut_record_lem rec_len left (omega arith))
        (handshake_lem _ _ _ _ rest refl (omega arith) (omega arith)))

-- A hello whose fields before the extensions were read whole, whatever part of the rest was read.
pub record IsWindow (hello : Slice) (h : Hello) (before : List Extension) (n : ℕ) (rest : Bytes)
    : Type 0 where
  pub major : ℕ
  pub minor : ℕ
  pub rec_len : ℕ
  pub msg_len : ℕ
  pub exts_len : ℕ
  pub ext_len : ℕ
  pub list_len : ℕ
  pub memory :
      hello.mem
      ≡ encode_header major minor rec_len msg_len
        ++ encode_front h exts_len (encode_exts before ++ sni_front ext_len list_len n rest)
  pub filled : 9 + front_len h ≤ hello.len
  pub bounded : hello.len ≤ length hello.mem
  pub in_record : 4 + front_len h ≤ rec_len
  pub reaches : length (encode_exts before) + 4 ≤ exts_len
  pub in_memory : exts_len ≤ length (encode_exts before) + 9 + length rest
  pub ext_two : 2 ≤ ext_len
  pub ext_in_memory : ext_len ≤ 5 + length rest
  pub list_three : 3 ≤ list_len
  pub list_in_memory : list_len ≤ 3 + length rest
  pub name_in_memory : n ≤ length rest

-- Then the name is `n` bytes of that memory, those beyond the slice's length included.
pub parse_sni_window :
    (hello : Slice) (h : Hello) (before : List Extension) (n : ℕ) (rest : Bytes)
    → IsHello h
    → All IsOther before
    → IsWindow hello h before n rest
    → parse_sni hello ≡ returns (some (take n rest))
unfolding parse_sni
parse_sni_window hello h before n rest ok others w =
    let tail = encode_exts before ++ sni_front w.ext_len w.list_len n rest in
    let size : length tail ≡ length (encode_exts before) + (9 + length rest) =
      omega (arith, length-append (encode_exts before) (sni_front w.ext_len w.list_len n rest)) in
    let at_hello =
      record_body_lem w.major w.minor w.rec_len w.msg_len _ hello w.memory (omega arith) w.bounded
        (omega arith) in
    let body : Slice = record {
      len = min w.rec_len (hello.len - 5) - 4;
      mem = encode_front h w.exts_len tail;
    } in
    let at_exts = client_hello_lem h w.exts_len tail body ok refl (omega arith) (omega arith) in
    let found =
      extensions_lem w.ext_len w.list_len n rest w.ext_two w.ext_in_memory w.list_three
        w.list_in_memory w.name_in_memory before (suc w.exts_len)
        (record { len = w.exts_len; mem = tail }) others refl w.reaches (omega arith)
        (omega arith) in
    rw (parse_sni, at_hello ∙ at_exts ∙ found)
