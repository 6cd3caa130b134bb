-- ===== src/Relay/Peek/Replay.antt =====
-- What the reader of `peekHostname` delivers (relay.go).
use vpnproxy.Base.{
  Bool, true, false, List, [], ◌∷◌, ◌++◌, append_assoc, ◌≡◌, refl, sym, ap, ◌∙◌, Bytes, leb, inl,
  inr, length, take, drop, take-append-drop, Bool-cases,
}
use vpnproxy.Relay.Peek.{buf_len, read, flat, content, peek_read, peek_hostname}

read-flat :
    (in_time : Bool) (pieces : List Bytes)
    → (read in_time pieces).0 ++ flat (read in_time pieces).1 ≡ flat pieces
unfolding read
read-flat false pieces = refl
read-flat true [] = refl
read-flat true (piece ∷ pieces) = elim (Bool-cases (leb (length piece) buf_len)) [
  | inl fits ↦ rw fits
  | inr long ↦ rw long (
      sym (append_assoc (take buf_len piece) (drop buf_len piece) (flat pieces))
      ∙ ap (λ x. x ++ flat pieces) (take-append-drop buf_len piece))
]

content-peek_read :
    (b : Bytes) (pieces : List Bytes) → content (peek_read b pieces).0 ≡ b ++ flat pieces
unfolding peek_read
content-peek_read [] pieces = refl
content-peek_read (c ∷ s) pieces = refl

-- Whatever the client sends, in whatever pieces, and whether or not the read meets its deadline: the
-- returned reader delivers exactly the client's bytes, in order.
pub content-peek_hostname :
    (in_time : Bool) (pieces : List Bytes) → content (peek_hostname in_time pieces).0 ≡ flat pieces
unfolding peek_hostname
content-peek_hostname in_time pieces =
    content-peek_read (read in_time pieces).0 (read in_time pieces).1 ∙ read-flat in_time pieces
