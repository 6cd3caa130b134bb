-- ===== src/Tests/Config.antt =====
-- `findConfig` and `runList` (config.go, config_test.go).
use vpnproxy.Base.{Bool, true, false, [], ◌∷◌, ◌++◌, some, ◌≡◌, refl, Bytes, codes, if◌then◌else◌}
use vpnproxy.Go.Text.{equal, has_suffix, less, insert, sort}
use vpnproxy.Config.{found_config, missing_in, first_existing, find_config}
use vpnproxy.Config.Regions.{
  Listing, entries, not_exist, region_of, has_region, add_region, add_entries, listed, unlisted,
  scan_dirs, run_list,
}
use vpnproxy.Config.Find.{candidates_for, Explains, find_config-Explains}

abbrev pub join : Bytes → Bytes → Bytes
join dir name = dir ++ b'/' ∷ name

abbrev stat : Bytes → Bool
stat p = equal p (codes "/u/us.conf")

in_user_dir :
    find_config join stat (some (codes "/u")) (codes "us") [] ≡ found_config (codes "/u/us.conf")
unfolding find_config first_existing equal
in_user_dir = refl

not_in_given_dir :
    find_config join stat (some (codes "/u")) (codes "us") (codes "/v") ≡ missing_in (codes "/v")
unfolding find_config equal
not_in_given_dir = refl

find_config-Explains_example :
    Explains join stat
      (some (codes "/u"))
      []
      (candidates_for join (codes "us") [] (some (codes "/u")))
      (find_config join stat (some (codes "/u")) (codes "us") [])
find_config-Explains_example = find_config-Explains join stat (some (codes "/u")) (codes "us") []

abbrev pub read_dir : Bytes → Listing
read_dir dir =
    if equal dir (codes ".")
    then entries (
        (record { name = codes "us.conf"; is_dir = false })
        ∷ (record { name = codes "de.conf"; is_dir = false })
        ∷ (record { name = codes "fr.conf"; is_dir = true })
        ∷ (record { name = codes ".conf"; is_dir = false })
        ∷ [])
    else if equal dir (codes "/u")
    then entries (
        (record { name = codes "us.conf"; is_dir = false })
        ∷ (record { name = codes "notes.txt"; is_dir = false })
        ∷ (record { name = codes "US.conf"; is_dir = false })
        ∷ [])
    else not_exist

two_dirs :
    run_list read_dir (some (codes "/u")) [] ≡ listed (codes "US" ∷ codes "de" ∷ codes "us" ∷ [])
unfolding run_list scan_dirs add_entries add_region region_of has_region has_suffix sort insert less
    equal
two_dirs = refl

missing_dir : run_list read_dir (some (codes "/u")) (codes "/v") ≡ unlisted (codes "/v")
unfolding run_list scan_dirs equal
missing_dir = refl
