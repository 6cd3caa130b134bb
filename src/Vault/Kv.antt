-- ===== src/Vault/Kv.antt =====
-- `kvRead` and `kvMount` of vault.go, on the responses of the Vault server. The server and the JSON
-- decoder are not part of the repository.
pub mod Mounted
use vpnproxy.Base.{[], ◌∷◌, ◌++◌, Option, none, some, Bytes, codes, if◌then◌else◌, length, drop}
use vpnproxy.Go.Text.{equal, cut, has_prefix, trim, trim_prefix}

-- What the response of `sys/internal/ui/mounts` decodes to.
pub record MountInfo : Type 0 where
  pub path : Bytes
  pub version : Bytes

pub record Mount : Type 0 where
  pub mount : Bytes
  pub version : Bytes

-- The first segment of a path.
unfoldable pub first_segment : Bytes → Bytes
first_segment path = elim (cut path b'/') [ none ↦ path | some (segment, rest) ↦ segment ]

-- `m.Path == ""` is the fallback; any version but 2 is version 1.
unfoldable pub known_mount : Mount → MountInfo → Mount
known_mount fallback m = elim m.path [
  | [] ↦ fallback
  | c ∷ s ↦ record {
    mount = c ∷ s;
    version = if equal m.version (codes "2") then codes "2" else codes "1";
  }
]

unfoldable pub api_path : Mount → Bytes → Bytes
api_path m path =
    if equal m.version (codes "2")
    then m.mount ++ (codes "data/" ++ trim_prefix path m.mount)
    else path

-- The fields; the request failed; the data were not decoded; or there are none.
pub data Secret (F : Type 0) : Type 0 where
  secret : F → Secret F
  not_read undecoded no_secret : Secret F

abbrev pub decoded : {F : Type 0} → Option (Option F) → Secret F
decoded none = undecoded
decoded (some none) = no_secret
decoded (some (some f)) = secret f

-- `get path` is `c.do` of a GET request, with the data of its response. The decoders give `none` on an
-- error; `as_data` and `as_data2` read a map, or null, the second one inside the field `data`.
module _ {J F : Type 0} (get : Bytes → Option J) (as_mount : J → Option MountInfo)
    (as_data as_data2 : J → Option (Option F)) where
  unfoldable pub kv_mount : Bytes → Mount
  kv_mount path =
      let fallback : Mount = record {
        mount = first_segment path ++ b'/' ∷ [];
        version = codes "2";
      } in
      elim (get (codes "sys/internal/ui/mounts/" ++ path)) [
        | none ↦ fallback
        | some data_ ↦ elim (as_mount data_) [ none ↦ fallback | some m ↦ known_mount fallback m ]
      ]

  unfoldable pub read_secret : Mount → Bytes → Secret F
  read_secret m path = elim (get (api_path m path)) [
    | none ↦ not_read
    | some data_ ↦
        if equal m.version (codes "2") then decoded (as_data2 data_) else decoded (as_data data_)
  ]

  unfoldable pub kv_read : Bytes → Secret F
  kv_read path = read_secret (kv_mount (trim path b'/')) (trim path b'/')
