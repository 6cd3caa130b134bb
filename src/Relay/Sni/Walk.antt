-- ===== src/Relay/Sni/Walk.antt =====
-- How the parts of `parseSNI` walk over the memory that a client filled: one lemma for each part.
use vpnproxy.Base.{
  ℕ, suc, ◌+◌, ◌-◌, ◌/◌, ◌%◌, ◌≤◌, ◌<◌, ◌∷◌, ◌++◌, some, ◌≡◌, refl, ap, ◌∙◌, arith, Bytes, ltb, leb,
  length, take, drop, le→ltb, le→leb, length-append, ◌==◌, true, false,
}
use vpnproxy.Relay.Slice.{
  returns, Slice, slice_from, big_endian, index-drop, big_endian-drop, slice_lem, drop-past,
}
use vpnproxy.Relay.Sni.{host_entry, server_name, extensions}
use vpnproxy.Relay.Sni.Encode.{word, Extension, encode_ext, IsOther}

pub big_endian-word :
    (s : Slice) (p n : ℕ) (xs : Bytes)
    → drop p s.mem ≡ word n ++ xs
    → p + 1 < s.len
    → big_endian s p ≡ returns n
big_endian-word s p n xs e h =
    big_endian-drop s p (n / 256) (n % 256) xs e h ∙ ap returns (omega arith)

-- A host entry whose name has `n` bytes, in a list that may end in the middle of the name.
host_entry_walk :
    (list : Slice) (n : ℕ) (rest : Bytes)
    → list.mem ≡ 0 ∷ (word n ++ rest)
    → 3 ≤ list.len
    → n ≤ length rest
    → host_entry list ≡ returns (some (take n rest))
unfolding host_entry
host_entry_walk list n rest e h k =
    let size : length list.mem ≡ 3 + length rest = omega (arith, ap length e) in
    let enough : ltb list.len 3 ≡ false = le→ltb list.len 3 h in
    rw
      (
        enough,
        index-drop list 0 0 (word n ++ rest) e (omega arith),
        big_endian-word list 1 n rest (ap (drop 1) e) (omega arith),
        slice_lem list 3 (3 + n) (omega arith) (omega arith),
        e,
      )
      (let same : 3 + n - 3 ≡ n = omega arith in rw same)

-- The server name extension, `list_len` the length that its list claims.
server_name_walk :
    (ext : Slice) (list_len n : ℕ) (rest : Bytes)
    → ext.mem ≡ word list_len ++ (0 ∷ (word n ++ rest))
    → 2 ≤ ext.len
    → 3 ≤ list_len
    → list_len ≤ 3 + length rest
    → n ≤ length rest
    → server_name ext ≡ returns (some (take n rest))
unfolding server_name
server_name_walk ext list_len n rest e two three fits k =
    let size : length ext.mem ≡ 5 + length rest = omega (arith, ap length e) in
    let enough : ltb ext.len 2 ≡ false = le→ltb ext.len 2 two in
    rw
      (
        enough,
        big_endian-word ext 0 list_len _ e (omega arith),
        slice_lem ext 2 (2 + list_len) (omega arith) (omega arith),
        e,
      )
      (host_entry_walk _ n rest refl (omega arith) k)

-- A round of the loop at the server name extension ends it.
pub extensions_found :
    (fuel : ℕ) (exts : Slice) (ext_len list_len n : ℕ) (rest : Bytes)
    → exts.mem ≡ word 0 ++ (word ext_len ++ (word list_len ++ (0 ∷ (word n ++ rest))))
    → 4 ≤ exts.len
    → 2 ≤ ext_len
    → ext_len ≤ 5 + length rest
    → 3 ≤ list_len
    → list_len ≤ 3 + length rest
    → n ≤ length rest
    → extensions (suc fuel) exts ≡ returns (some (take n rest))
unfolding extensions
extensions_found fuel exts ext_len list_len n rest e four two inside three fits k =
    let size : length exts.mem ≡ 9 + length rest = omega (arith, ap length e) in
    let more : leb 4 exts.len ≡ true = le→leb 4 exts.len four in
    rw (extensions, more)
      (rw
        (
          big_endian-word exts 0 0 _ e (omega arith),
          big_endian-word exts 2 ext_len _ (ap (drop 2) e) (omega arith),
          slice_lem exts 4 (4 + ext_len) (omega arith) (omega arith),
          e,
        )
        (server_name_walk _ list_len n rest refl (omega arith) three fits k))

-- A round at another extension steps over it.
pub extensions_skip :
    (fuel : ℕ) (exts : Slice) (x : Extension) (rest : Bytes)
    → IsOther x
    → exts.mem ≡ encode_ext x ++ rest
    → 4 + length x.body ≤ exts.len
    → exts.len ≤ length exts.mem
    → extensions (suc fuel) exts
      ≡ extensions fuel (record { len = exts.len - (4 + length x.body); mem = rest })
unfolding extensions slice_from
extensions_skip fuel exts x rest (other, small, fits) e inside whole =
    let n = length x.body in
    let size : length exts.mem ≡ 4 + (n + length rest) =
      omega (arith, ap length e, length-append x.body rest) in
    let more : leb 4 exts.len ≡ true = le→leb 4 exts.len (omega arith) in
    let unlike : (x.kind == 0) ≡ false = ground arith in
    rw (extensions, more)
      (rw
        (
          big_endian-word exts 0 x.kind _ e (omega arith),
          big_endian-word exts 2 n (x.body ++ rest) (ap (drop 2) e) (omega arith),
          slice_lem exts 4 (4 + n) (omega arith) (omega arith),
          unlike,
          slice_lem exts (4 + n) exts.len inside whole,
          drop-past 4 (4 + n) exts.mem x.body rest (ap (drop 4) e) refl,
        )
        refl)
