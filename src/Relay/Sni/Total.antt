-- ===== src/Relay/Sni/Total.antt =====
-- What `parseSNI` returns on any slice (relay.go).
use vpnproxy.Base.{
  ℕ, zero, suc, ◌+◌, ◌≤◌, ◌<◌, Option, none, some, inl, inr, ◌≡◌, refl, ap, ◌∙◌, arith, Bytes, leb,
  ◌==◌, length, take, drop, length-drop, Bool-cases,
}
use vpnproxy.Relay.Slice.{Outcome, returns, Slice, slice_from, text, drop-drop}
use vpnproxy.Relay.Post.{
  Post, returned, panicked, Post-bind, Post-if, Post-map, index-Post, big_endian-Post, IsCut,
  slice-Post,
}
use vpnproxy.Relay.Sni.{
  host_entry, server_name, extensions, client_hello, handshake, cut_record, record_body, recover,
  parse_sni,
}

-- Nothing was found, or `name` is the memory `m` from some position on, up to its length.
abbrev pub IsFound : Bytes → Option Bytes → Type 0
IsFound m none = Unit
IsFound m (some name) = (k : ℕ) × (l : ℕ) × (k + l ≤ length m) × (name ≡ take l (drop k m))

-- A slice whose memory is a tail of `m`.
abbrev IsTail : Bytes → Slice → Type 0
IsTail m s = (k : ℕ) × (s.mem ≡ drop k m) × (k ≤ length m)

IsCut-IsTail : (m : Bytes) (s t : Slice) (a b : ℕ) → IsTail m s → IsCut s a b t → IsTail m t
IsCut-IsTail m s t a b (k, e, h) (low, high, _, e') = (
  k + a,
  e' ∙ ap (drop a) e ∙ drop-drop k a (k + a) m refl,
  omega (arith, ap length e, length-drop k m),
)

module _ (m : Bytes) where
  name-IsFound :
      (list name : Slice) (n : ℕ)
      → IsTail m list
      → IsCut list 3 (3 + n) name
      → IsFound m (some (text name))
  name-IsFound list name n (k, e, h) (low, high, size, e') = (
    k + 3,
    name.len,
    omega (arith, ap length e, length-drop k m),
    ap (take name.len) (e' ∙ ap (drop 3) e ∙ drop-drop k 3 (k + 3) m refl),
  )

  host_entry-Post : (list : Slice) → IsTail m list → Post (IsFound m) (host_entry list)
  unfolding host_entry
  host_entry-Post list w = Post-if _ (returned _ tt) (
      Post-bind (index-Post list 0) λ kind _. Post-if _ (returned _ tt) (
        Post-bind (big_endian-Post list 1) λ n _.
          Post-bind (slice-Post list 3 (3 + n))
            λ name cut. returned _ (name-IsFound list name n w cut)))

  server_name-Post : (ext : Slice) → IsTail m ext → Post (IsFound m) (server_name ext)
  unfolding server_name
  server_name-Post ext w = Post-if _ (returned _ tt) (
      Post-bind (big_endian-Post ext 0) λ n _.
        Post-bind (slice-Post ext 2 (2 + n))
          λ list cut. host_entry-Post list (IsCut-IsTail m ext list 2 (2 + n) w cut))

  extensions-Post :
      (fuel : ℕ) (exts : Slice)
      → exts.len < fuel
      → IsTail m exts
      → Post (IsFound m) (extensions fuel exts)
  unfolding extensions slice_from
  extensions-Post zero exts h w = absurd (omega arith)
  extensions-Post (suc fuel) exts h w = elim (Bool-cases (leb 4 exts.len)) [
    | inr done ↦ rw (done, extensions) (returned _ tt)
    | inl more ↦
        rw (more, extensions)
          (Post-bind (big_endian-Post exts 0) λ kind _. Post-bind (big_endian-Post exts 2) λ n _.
            Post-bind (slice-Post exts 4 (4 + n)) λ ext cut. elim (Bool-cases (kind == 0)) [
              | inl sni ↦ rw sni (server_name-Post ext (IsCut-IsTail m exts ext 4 (4 + n) w cut))
              | inr other ↦ rw other (
                  Post-bind (slice-Post exts (4 + n) exts.len) λ rest cut'.
                    extensions-Post fuel rest (omega arith)
                      (IsCut-IsTail m exts rest (4 + n) exts.len w cut'))
            ])
  ]

  client_hello-Post : (body : Slice) → IsTail m body → Post (IsFound m) (client_hello body)
  unfolding client_hello
  client_hello-Post body w = Post-bind (index-Post body 34) λ session _.
      Post-bind (big_endian-Post body (35 + session)) λ suites _.
        Post-bind (index-Post body _) λ methods _. Post-if _ (returned _ tt) (
          Post-bind (big_endian-Post body _) λ n _. Post-bind (slice-Post body _ _) λ exts cut.
            extensions-Post (suc exts.len) exts (omega arith) (IsCut-IsTail m body exts _ _ w cut))

  handshake-Post : (rec : Slice) → IsTail m rec → Post (IsFound m) (handshake rec)
  unfolding handshake slice_from
  handshake-Post rec w = Post-if _ (returned _ tt) (
      Post-bind (index-Post rec 0) λ kind _. Post-if _ (returned _ tt) (
        Post-bind (slice-Post rec 4 rec.len)
          λ body cut. client_hello-Post body (IsCut-IsTail m rec body 4 rec.len w cut)))

  cut_record-Post : (n : ℕ) (rest : Slice) → IsTail m rest → Post (IsTail m) (cut_record n rest)
  unfolding cut_record
  cut_record-Post n rest w =
      Post-if _ (Post-map (slice-Post rest 0 n) λ rec cut. IsCut-IsTail m rest rec 0 n w cut)
        (returned rest w)

  record_body-Post : (hello : Slice) → IsTail m hello → Post (IsFound m) (record_body hello)
  unfolding record_body slice_from
  record_body-Post hello w = Post-if _ (returned _ tt) (
      Post-bind (index-Post hello 0) λ kind _. Post-if _ (returned _ tt) (
        Post-bind (big_endian-Post hello 3) λ n _.
          Post-bind (slice-Post hello 5 hello.len) λ rest cut.
            Post-bind (cut_record-Post n rest (IsCut-IsTail m hello rest 5 hello.len w cut))
              λ rec w'. handshake-Post rec w'))

  recover-Post :
      {o : Outcome (Option Bytes)}
      → Post (IsFound m) o
      → (r : Option Bytes) × (recover o ≡ returns r) × IsFound m r
  recover-Post (returned r f) = (r, refl, f)
  recover-Post panicked = (none, refl, tt)

-- On every slice of bytes, malformed or truncated, `parseSNI` returns: the loop over the extensions
-- ends, and no panic leaves the function. A name that it returns is a stretch of the memory from the
-- slice's first byte to the end of its capacity.
pub parse_sni_total :
    (hello : Slice) → (r : Option Bytes) × (parse_sni hello ≡ returns r) × IsFound hello.mem r
unfolding parse_sni
parse_sni_total hello =
    recover-Post hello.mem (record_body-Post hello.mem hello (0, refl, omega arith))
