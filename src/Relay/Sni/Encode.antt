-- ===== src/Relay/Sni/Encode.antt =====
-- What a TLS client sends: a record with a ClientHello, written out, against which `parseSNI` is read.
use vpnproxy.Base.{ℕ, ◌+◌, ◌/◌, ◌%◌, ◌<◌, List, [], ◌∷◌, ◌++◌, ◌≡◌, ◌≢◌, Bytes, length}

-- A 16-bit number, most significant byte first.
abbrev pub word : ℕ → Bytes
word n = n / 256 ∷ n % 256 ∷ []

pub record Extension : Type 0 where
  pub kind : ℕ
  pub body : Bytes

abbrev pub encode_ext : Extension → Bytes
encode_ext e = word e.kind ++ word (length e.body) ++ e.body

abbrev pub encode_exts : List Extension → Bytes
encode_exts [] = []
encode_exts (e ∷ es) = encode_ext e ++ encode_exts es

-- The server_name extension with one host name.
abbrev pub sni_ext : Bytes → Extension
sni_ext name = record {
  kind = 0;
  body = word (3 + length name) ++ (0 ∷ word (length name)) ++ name;
}

pub record Hello : Type 0 where
  -- client_version and random
  pub head : Bytes
  pub session : Bytes
  pub suites : Bytes
  pub methods : Bytes
  pub exts : List Extension

-- The fields before the extensions, the length of those, and what follows it.
abbrev pub encode_front : Hello → ℕ → Bytes → Bytes
encode_front h ext_len rest =
    h.head
    ++ (length h.session
        ∷ (h.session
            ++ (word (length h.suites)
                ++ (h.suites ++ (length h.methods ∷ (h.methods ++ (word ext_len ++ rest)))))))

abbrev pub encode_body : Hello → Bytes
encode_body h = encode_front h (length (encode_exts h.exts)) (encode_exts h.exts)

-- The record header and the handshake header, the version bytes as given.
abbrev pub encode_header : ℕ → ℕ → ℕ → ℕ → Bytes
encode_header major minor rec_len msg_len =
    0x16
    ∷ major
    ∷ minor
    ∷ rec_len / 256
    ∷ rec_len % 256
    ∷ 1
    ∷ msg_len / 65536
    ∷ msg_len / 256 % 256
    ∷ msg_len % 256
    ∷ []

abbrev pub encode : ℕ → ℕ → Hello → Bytes
encode major minor h =
    let body = encode_body h in encode_header major minor (4 + length body) (length body) ++ body

-- The lengths fit their fields.
pub record IsHello (h : Hello) : Type 0 where
  pub head_len : length h.head ≡ 34
  pub session_len : length h.session < 256
  pub suites_len : length h.suites < 65536
  pub methods_len : length h.methods < 256
  pub exts_len : length (encode_exts h.exts) < 65536

-- An extension that is not server_name, whose fields fit.
abbrev pub IsOther : Extension → Type 0
IsOther e = (e.kind ≢ 0) × (e.kind < 65536) × (length e.body < 65536)
