-- ===== src/Config/Command.antt =====
-- `configDirUsage` of config.go, and the flags and the output of `runList`.
pub mod Printed
use vpnproxy.Base.{
  ℕ, ◌+◌, Bool, true, false, List, [], ◌∷◌, ◌++◌, Option, Bytes, codes, length, drop,
}
use vpnproxy.Config.{config_dirs}
use vpnproxy.Config.Regions.{Listing, Regions, listed, unlisted, run_list}

-- `filepath.Join` is a parameter.
module _ (join : Bytes → Bytes → Bytes) where
  unfoldable pub add_paths : List Bytes → Bytes → Bytes
  add_paths [] paths = paths
  add_paths (dir ∷ dirs) paths =
      add_paths dirs (paths ++ (codes " then " ++ join dir (codes "<region>.conf")))

  unfoldable pub config_dir_usage : Option Bytes → Bytes
  config_dir_usage user_dir =
      codes "directory containing <region>.conf (default: "
      ++ (add_paths (drop 1 (config_dirs user_dir [])) (codes "./<region>.conf") ++ codes ")")

-- What package flag makes of the arguments: the value of -config-dir, and what is left.
pub data ListFlags : Type 0 where
  list_help bad_list_flags : ListFlags
  list_flags : Bytes → List Bytes → ListFlags

-- How the command ends; `printed` is without an error.
pub data ListExit : Type 0 where
  list_helped list_refused printed not_printed : ListExit
  list_bad_count : ℕ → ListExit
  not_listed : Bytes → ListExit

-- `writes i` is the success of line `i`; the lines that are out, and the end.
module _ (writes : ℕ → Bool) where
  unfoldable pub print_lines : ℕ → List Bytes → List Bytes × ListExit
  print_lines i [] = ([], printed)
  print_lines i (name ∷ names) =
      let (lines, end) = print_lines (i + 1) names in
      elim (writes i) [ true ↦ (name ∷ lines, end) | false ↦ ([], not_printed) ]

  unfoldable pub print_regions : Regions → List Bytes × ListExit
  print_regions (listed names) = print_lines 0 names
  print_regions (unlisted dir) = ([], not_listed dir)

  unfoldable pub list_command : (Bytes → Listing) → Option Bytes → ListFlags → List Bytes × ListExit
  list_command read_dir user_dir list_help = ([], list_helped)
  list_command read_dir user_dir bad_list_flags = ([], list_refused)
  list_command read_dir user_dir (list_flags config_dir []) =
      print_regions (run_list read_dir user_dir config_dir)
  list_command read_dir user_dir (list_flags config_dir (a ∷ args)) =
      ([], list_bad_count (length (a ∷ args)))
