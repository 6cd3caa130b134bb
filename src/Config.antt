-- ===== src/Config.antt =====
-- `configDirs` and `findConfig` of config.go. `filepath.Join` depends on the system and is a parameter,
-- as are the user's directory and the files that exist.
pub mod Find
pub mod Regions
pub mod Command
use vpnproxy.Base.{Bool, true, false, List, [], ◌∷◌, ◌++◌, map, Option, none, some, Bytes, codes}

-- `os.UserConfigDir()` joined with vpnproxy/wireguard; `none` is its error.
abbrev pub default_dirs : Option Bytes → List Bytes
default_dirs none = codes "." ∷ []
default_dirs (some user_dir) = codes "." ∷ user_dir ∷ []

abbrev pub config_dirs : Option Bytes → Bytes → List Bytes
config_dirs user_dir [] = default_dirs user_dir
config_dirs user_dir (c ∷ dir) = (c ∷ dir) ∷ []

-- The path, or the directories that were looked in.
pub data FindResult : Type 0 where
  found_config : Bytes → FindResult
  missing_in : Bytes → FindResult
  missing : List Bytes → FindResult

module _ (join : Bytes → Bytes → Bytes) (stat : Bytes → Bool) (user_dir : Option Bytes) where
  -- The loop over the candidates.
  unfoldable pub first_existing : List Bytes → List Bytes → FindResult
  first_existing all [] = missing all
  first_existing all (p ∷ ps) = elim (stat p) [
    | true ↦ found_config p
    | false ↦ first_existing all ps
  ]

  unfoldable pub find_config : Bytes → Bytes → FindResult
  find_config region (c ∷ dir) =
      let p = join (c ∷ dir) (region ++ codes ".conf") in
      elim (stat p) [ true ↦ found_config p | false ↦ missing_in (c ∷ dir) ]
  find_config region [] =
      let candidates = map (λ dir. join dir (region ++ codes ".conf")) (config_dirs user_dir []) in
      first_existing candidates candidates
