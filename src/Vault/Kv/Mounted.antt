-- ===== src/Vault/Kv/Mounted.antt =====
-- Which request `kvRead` makes for a secret of a mount.
use vpnproxy.Base.{
  ℕ, Bool, true, false, [], ◌∷◌, ◌++◌, reverse, Option, none, some, ◌≡◌, ◌≢◌, refl, sym, ap, ◌∙◌,
  Bytes, codes,
}
use vpnproxy.Go.Text.{equal}
use vpnproxy.Go.Text.Laws.{Lacks, cut-Lacks, trim_lem, trim_prefix-append}
use vpnproxy.Vault.Kv.{
  MountInfo, Mount, first_segment, known_mount, api_path, Secret, not_read, decoded, kv_mount,
  read_secret, kv_read,
}

abbrev pub version_of : Bool → Bytes
version_of true = codes "2"
version_of false = codes "1"

module _ {J F : Type 0} (get : Bytes → Option J) (as_mount : J → Option MountInfo)
    (as_data as_data2 : J → Option (Option F)) where
  -- The secret at a path inside a mount, as the two versions of the store serve it.
  abbrev pub served : Bool → Bytes → Bytes → Secret F
  served true mount rest = elim (get (mount ++ (codes "data/" ++ rest))) [
    | none ↦ not_read
    | some data_ ↦ decoded (as_data2 data_)
  ]
  served false mount rest = elim (get (mount ++ rest)) [
    | none ↦ not_read
    | some data_ ↦ decoded (as_data data_)
  ]

  -- What is known of the mount of a path: the server tells it; or it does not, and the mount is a first
  -- segment with the second version.
  pub data IsMounted (mount path : Bytes) : Bool → Type 0 where
    told :
        (data_ : J) (v : Bytes) (second : Bool)
        → get (codes "sys/internal/ui/mounts/" ++ path) ≡ some data_
        → as_mount data_ ≡ some (record { path = mount; version = v })
        → mount ≢ []
        → equal v (codes "2") ≡ second
        → IsMounted mount path second
    untold :
        (segment rest : Bytes)
        → get (codes "sys/internal/ui/mounts/" ++ path) ≡ none
        → Lacks b'/' segment
        → mount ≡ segment ++ b'/' ∷ []
        → path ≡ segment ++ b'/' ∷ rest
        → IsMounted mount path true

  known_mount_lem :
      (fallback : Mount) (mount v : Bytes) (second : Bool)
      → mount ≢ []
      → equal v (codes "2") ≡ second
      → known_mount fallback (record { path = mount; version = v })
        ≡ (record { mount = mount; version = version_of second })
  unfolding known_mount
  known_mount_lem fallback [] v second ne e = absurd (ne refl)
  known_mount_lem fallback (c ∷ s) v true ne e = rw e refl
  known_mount_lem fallback (c ∷ s) v false ne e = rw e refl

  first_segment-Lacks :
      (segment rest : Bytes) → Lacks b'/' segment → first_segment (segment ++ b'/' ∷ rest) ≡ segment
  unfolding first_segment
  first_segment-Lacks segment rest h = rw (first_segment, cut-Lacks segment rest b'/' h)

  kv_mount-IsMounted :
      (mount path : Bytes) (second : Bool)
      → IsMounted mount path second
      → kv_mount get as_mount as_data as_data2 path
        ≡ (record { mount = mount; version = version_of second })
  unfolding kv_mount
  kv_mount-IsMounted mount path second (told data_ v _ asked read ne e) =
      rw (kv_mount, asked, read) (known_mount_lem _ mount v second ne e)
  kv_mount-IsMounted mount path second (untold segment rest asked lacks is_mount is_path) =
      rw (kv_mount, asked)
        (ap (λ x. record { mount = x ++ b'/' ∷ []; version = codes "2" })
            (ap first_segment is_path ∙ first_segment-Lacks segment rest lacks)
          ∙ ap (λ x. record { mount = x; version = codes "2" }) (sym is_mount))

  api_path_lem :
      (mount rest : Bytes)
      → api_path (record { mount = mount; version = codes "2" }) (mount ++ rest)
        ≡ mount ++ (codes "data/" ++ rest)
  unfolding api_path equal
  api_path_lem mount rest = ap (λ x. mount ++ (codes "data/" ++ x)) (trim_prefix-append mount rest)

  read_secret-served :
      (mount rest : Bytes) (second : Bool)
      → read_secret get as_mount as_data as_data2
          (record { mount = mount; version = version_of second })
          (mount ++ rest)
        ≡ served second mount rest
  unfolding read_secret api_path equal
  read_secret-served mount rest true =
      ap (λ x. elim (get x) [ none ↦ not_read | some data_ ↦ decoded (as_data2 data_) ])
        (api_path_lem mount rest)
  read_secret-served mount rest false = refl

  -- A secret of a mount is read from where its version of the store serves it: below data/ in the second
  -- version, at its path in the first one. It is so when the server tells the mount of the path, and also
  -- when it does not, for a mount of one segment and the second version. The path neither starts nor ends
  -- with a slash.
  pub kv_read-served :
      (mount rest : Bytes) (second : Bool) (c d : ℕ) (behind back : Bytes)
      → IsMounted mount (mount ++ rest) second
      → mount ++ rest ≡ c ∷ behind
      → reverse (mount ++ rest) ≡ d ∷ back
      → c ≢ b'/'
      → d ≢ b'/'
      → kv_read get as_mount as_data as_data2 (mount ++ rest) ≡ served second mount rest
  unfolding kv_read
  kv_read-served mount rest second c d behind back is front end_ no_c no_d =
      let kept = trim_lem (mount ++ rest) c d behind back front end_ b'/' no_c no_d in
      ap
        (λ x.
          read_secret get as_mount as_data as_data2 (kv_mount get as_mount as_data as_data2 x) x)
        kept
      ∙ ap (λ m. read_secret get as_mount as_data as_data2 m (mount ++ rest))
          (kv_mount-IsMounted mount (mount ++ rest) second is)
      ∙ read_secret-served mount rest second
