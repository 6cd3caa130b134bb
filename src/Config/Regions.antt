-- ===== src/Config/Regions.antt =====
-- `runList` of config.go: the directories that it reads and the regions that it finds there.
pub mod Members
pub mod Listed
use vpnproxy.Base.{
  Bool, true, false, not, ◌&&◌, ◌||◌, List, [], ◌∷◌, Option, none, some, Bytes, codes,
  if◌then◌else◌,
}
use vpnproxy.Go.Text.{equal, has_suffix, trim_suffix, sort}
use vpnproxy.Config.{config_dirs}

pub record DirEntry : Type 0 where
  pub name : Bytes
  pub is_dir : Bool

-- What `os.ReadDir` gives.
pub data Listing : Type 0 where
  entries : List DirEntry → Listing
  not_exist unreadable : Listing

-- `region != ""`
abbrev pub named : Bytes → Option Bytes
named [] = none
named (c ∷ s) = some (c ∷ s)

-- The region that an entry adds, if any.
unfoldable pub region_of : DirEntry → Option Bytes
region_of e =
    if not e.is_dir && has_suffix e.name (codes ".conf")
    then named (trim_suffix e.name (codes ".conf"))
    else none

-- The keys of the map `regions`, and `regions[region] = true`.
unfoldable pub has_region : Bytes → List Bytes → Bool
unfolding equal
has_region r [] = false
has_region r (s ∷ set) = equal r s || has_region r set

unfoldable pub add_region : Option Bytes → List Bytes → List Bytes
add_region none set = set
add_region (some r) set = if has_region r set then set else r ∷ set

unfoldable pub add_entries : List DirEntry → List Bytes → List Bytes
add_entries [] set = set
add_entries (e ∷ es) set = add_entries es (add_region (region_of e) set)

-- The lines that are printed, or the directory that was not read.
pub data Regions : Type 0 where
  listed : List Bytes → Regions
  unlisted : Bytes → Regions

abbrev pub is_given : Bytes → Bool
is_given [] = false
is_given (c ∷ dir) = true

module _ (read_dir : Bytes → Listing) where
  -- `given` is `*configDir != ""`.
  unfoldable pub scan_dirs : Bool → List Bytes → List Bytes → Regions
  scan_dirs given [] set = listed (sort set)
  scan_dirs given (dir ∷ dirs) set = elim (read_dir dir) [
    | entries es ↦ scan_dirs given dirs (add_entries es set)
    | not_exist ↦ elim given [ true ↦ unlisted dir | false ↦ scan_dirs given dirs set ]
    | unreadable ↦ unlisted dir
  ]

  unfoldable pub run_list : Option Bytes → Bytes → Regions
  run_list user_dir config_dir =
      scan_dirs (is_given config_dir) (config_dirs user_dir config_dir) []
