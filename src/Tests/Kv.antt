-- ===== src/Tests/Kv.antt =====
-- `kvRead` (vault.go, vault_test.go).
use vpnproxy.Base.{true, ◌++◌, Option, none, some, ◌≡◌, refl, arith, Bytes, codes, if◌then◌else◌}
use vpnproxy.Go.Text.{equal, cut, has_prefix, trim_left}
use vpnproxy.Vault.Kv.{
  MountInfo, first_segment, known_mount, api_path, secret, kv_mount, read_secret, kv_read,
}
use vpnproxy.Vault.Kv.Mounted.{served, told, kv_read-served}

-- A store of the second version at kv/team/, whose responses are their texts.
abbrev get : Bytes → Option Bytes
get p =
    if equal p (codes "sys/internal/ui/mounts/kv/team/vpnproxy")
    then some (codes "mount")
    else if equal p (codes "kv/team/data/vpnproxy")
    then some (codes "fields")
    else none

abbrev as_mount : Bytes → Option MountInfo
as_mount j = some (record { path = codes "kv/team/"; version = codes "2" })

abbrev as_data : Bytes → Option (Option Bytes)
as_data j = none

abbrev as_data2 : Bytes → Option (Option Bytes)
as_data2 j = some (some j)

-- Slashes around the path are dropped.
with_slashes :
    kv_read get as_mount as_data as_data2 (codes "/kv/team/vpnproxy/") ≡ secret (codes "fields")
unfolding kv_read kv_mount read_secret api_path known_mount first_segment cut equal has_prefix
    trim_left
with_slashes = refl

kv_read-served_example :
    kv_read get as_mount as_data as_data2 (codes "kv/team/" ++ codes "vpnproxy")
    ≡ served get as_mount as_data as_data2 true (codes "kv/team/") (codes "vpnproxy")
unfolding equal
kv_read-served_example =
    kv_read-served get as_mount as_data as_data2 (codes "kv/team/") (codes "vpnproxy") true b'k'
      b'y' (codes "v/team/vpnproxy") (codes "xorpnpv/maet/vk")
      (told (codes "mount") (codes "2") true refl refl (λ e. cc) refl) refl refl (omega arith)
      (omega arith)
