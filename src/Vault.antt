-- ===== src/Vault.antt =====
-- `writeConfigs` and `writeFileAtomic` of vault.go. The files are a state; what the operating system
-- does with each call is the environment of a write. A path names one file: that some systems give a
-- file several paths, by links or by letter case, is left out.
pub mod Atomic
pub mod Fields
pub mod Contents
pub mod Configs
pub mod Kv
pub mod Client
pub mod Html
pub mod Login
pub mod Fetch
use vpnproxy.Base.{
  ℕ, zero, suc, ◌+◌, Bool, true, false, not, ◌&&◌, ◌||◌, List, [], ◌∷◌, ◌++◌, Option, none, some,
  Bytes, codes, leb, ◌==◌, if◌then◌else◌,
}
use vpnproxy.Go.Text.{equal, has_suffix, sort}

abbrev pub Files : Type 0
Files = Bytes → Option Bytes

abbrev pub set_file : Bytes → Option Bytes → Files → Files
set_file path content files p = if equal p path then content else files p

-- What happens to the calls of one `writeFileAtomic`: the name of the temporary file, or the failure to
-- create it; and which of the later calls succeed. A write that fails has written some bytes.
pub record Env : Type 0 where
  pub temp : Option Bytes
  pub chmods : Bool
  pub written : Option Bytes
  pub closes : Bool
  pub renames : Bool

-- The new files, and whether the write succeeded. The deferred `os.Remove` comes last, and removes
-- nothing behind a successful rename.
unfoldable pub write_temp : Env → Bytes → Bytes → Bytes → Files → Files × Bool
write_temp env tmp path content files =
    if not env.chmods
    then (set_file tmp none (set_file tmp (some []) files), false)
    else elim env.written [
      | some part ↦ (set_file tmp none (set_file tmp (some part) files), false)
      | none ↦
          let full = set_file tmp (some content) files in
          if not env.closes || not env.renames
          then (set_file tmp none full, false)
          else (set_file tmp none (set_file path (full tmp) (set_file tmp none full)), true)
    ]

unfoldable pub write_file_atomic : Env → Bytes → Bytes → Files → Files × Bool
unfolding write_temp equal
write_file_atomic env path content files = elim env.temp [
  | none ↦ (files, false)
  | some tmp ↦ write_temp env tmp path content files
]

-- A field of the secret: a string, or some other JSON value.
pub data Value : Type 0 where
  text : Bytes → Value
  other_value : Value

pub record Field : Type 0 where
  pub name : Bytes
  pub value : Value

abbrev pub is_letter_or_digit : ℕ → Bool
is_letter_or_digit c =
    (leb b'A' c && leb c b'Z') || (leb b'a' c && leb c b'z') || (leb b'0' c && leb c b'9')

unfoldable pub all_name_bytes : Bytes → Bool
all_name_bytes [] = true
all_name_bytes (c ∷ s) =
    (is_letter_or_digit c || c == b'.' || c == b'_' || c == b'-') && all_name_bytes s

-- `regionNameRE`: ^[A-Za-z0-9][A-Za-z0-9._-]*$
unfoldable pub is_region_name : Bytes → Bool
unfolding all_name_bytes
is_region_name [] = false
is_region_name (c ∷ s) = is_letter_or_digit c && all_name_bytes s

pub data Refusal : Type 0 where
  no_fields : Refusal
  invalid_name not_text : Bytes → Refusal

-- The checks, in the order in which the map is walked.
unfoldable pub check_fields : List Field → Option Refusal
check_fields [] = none
check_fields (f ∷ fs) = elim (is_region_name f.name) [
  | false ↦ some (invalid_name f.name)
  | true ↦ elim f.value [ other_value ↦ some (not_text f.name) | text s ↦ check_fields fs ]
]

-- `data[name].(string)`
unfoldable pub content_of : List Field → Bytes → Bytes
content_of [] name = []
content_of (f ∷ fs) name = elim (equal f.name name) [
  | true ↦ elim f.value [ text s ↦ s | other_value ↦ [] ]
  | false ↦ content_of fs name
]

-- `if !strings.HasSuffix(content, "\n") { content += "\n" }`
unfoldable pub end_line : Bytes → Bytes
end_line s = if has_suffix s (b'\n' ∷ []) then s else s ++ b'\n' ∷ []

abbrev pub names_of : List Field → List Bytes
names_of [] = []
names_of (f ∷ fs) = f.name ∷ names_of fs

-- `len(data) != 0`
abbrev pub has_fields : List Field → Bool
has_fields [] = false
has_fields (f ∷ fs) = true

-- The names written, in order; why nothing was written; the directory could not be made; or the first
-- name that could not be written.
pub data Report : Type 0 where
  written : List Bytes → Report
  refused : Refusal → Report
  no_directory : Report
  not_written : Bytes → Report

-- `path name` is `filepath.Join(dir, name+".conf")`; `env i` is the environment of write `i`.
module _ (path : Bytes → Bytes) (env : ℕ → Env) (fields : List Field) where
  unfoldable pub write_names : ℕ → List Bytes → Files → Files × Option Bytes
  write_names i [] files = (files, none)
  write_names i (name ∷ names) files =
      let done = write_file_atomic (env i) (path name) (end_line (content_of fields name)) files in
      elim done.1 [ true ↦ write_names (i + 1) names done.0 | false ↦ (done.0, some name) ]

  abbrev pub conclude : List Bytes → Files × Option Bytes → Files × Report
  conclude names (files, none) = (files, written names)
  conclude names (files, some name) = (files, not_written name)

  unfoldable pub write_valid : Bool → Files → Files × Report
  write_valid made files =
      if made
      then conclude (sort (names_of fields)) (write_names 0 (sort (names_of fields)) files)
      else (files, no_directory)

  -- `made` is the success of `os.MkdirAll`.
  unfoldable pub write_configs : Bool → Files → Files × Report
  write_configs made files =
      if has_fields fields
      then elim (check_fields fields) [
        | some r ↦ (files, refused r)
        | none ↦ write_valid made files
      ]
      else (files, refused no_fields)
