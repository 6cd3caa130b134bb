-- ===== src/Config/Regions/Listed.antt =====
-- What `runList` lists.
use mathlib.Core.List.Memᴰ
use vpnproxy.Base.{
  Bool, true, false, List, [], ◌∷◌, Option, ◌≡◌, ◌↔◌, ◌⊎◌, inl, inr, refl, sym, ap, ◌∙◌, Bytes, All,
  Memᴰ, Bool-cases,
}
use vpnproxy.Go.Text.Sort.{Ascending, Distinct, sort-Ascending, mem_of_sort, sort_of_mem}
use vpnproxy.Config.{config_dirs}
use vpnproxy.Config.Regions.{
  DirEntry, Listing, entries, not_exist, unreadable, add_entries, Regions, listed, unlisted,
  is_given, scan_dirs, run_list,
}
use vpnproxy.Config.Regions.Members.{
  From, add_entries-Distinct, add_entries_left, add_entries_right, add_entries_of,
}

Listing-cases :
    (l : Listing) → ((es : List DirEntry) × (l ≡ entries es)) ⊎ ((l ≡ not_exist) ⊎ (l ≡ unreadable))
Listing-cases (entries es) = inl (es, refl)
Listing-cases not_exist = inr (inl refl)
Listing-cases unreadable = inr (inr refl)

module _ (read_dir : Bytes → Listing) (given : Bool) where
  -- A directory with a file of the region.
  abbrev pub Holds : Bytes → Bytes → Type 0
  Holds r dir = (es : List DirEntry) × (read_dir dir ≡ entries es) × From es r

  -- A directory that is read, or may be missing.
  abbrev pub IsReadable : Bytes → Type 0
  IsReadable dir =
      ((es : List DirEntry) × (read_dir dir ≡ entries es))
      ⊎ ((read_dir dir ≡ not_exist) × (given ≡ false))

  abbrev pub IsUnreadable : Bytes → Type 0
  IsUnreadable dir = (read_dir dir ≡ unreadable) ⊎ ((read_dir dir ≡ not_exist) × (given ≡ true))

  abbrev pub SomeHolds : Bytes → List Bytes → Type 0
  SomeHolds r dirs = (dir : Bytes) × Memᴰ dir dirs × Holds r dir

  -- What a result says of the directories, where `set` holds what was found before.
  abbrev pub Says : List Bytes → List Bytes → Regions → Type 0
  Says dirs set (listed names) =
      Ascending names
      × ((r : Bytes) → Memᴰ r names ↔ (Memᴰ r set ⊎ SomeHolds r dirs))
      × All IsReadable dirs
  Says dirs set (unlisted dir) = Memᴰ dir dirs × IsUnreadable dir

  -- A directory that is read comes first.
  Says-entries :
      (dir : Bytes) (dirs set : List Bytes) (es : List DirEntry) (res : Regions)
      → read_dir dir ≡ entries es
      → Says dirs (add_entries es set) res
      → Says (dir ∷ dirs) set res
  Says-entries dir dirs set es (listed names) read (up, same, all) =
      (up, (λ r. (to r, from r)), (inl (es, read), all))
    where
      to : (r : Bytes) → Memᴰ r names → Memᴰ r set ⊎ SomeHolds r (dir ∷ dirs)
      to r m = elim ((same r).0 m) [
        | inl here ↦ elim (add_entries_of es set r here) [
          | inl old ↦ inl old
          | inr new ↦ inr (dir, Memᴰ.head refl, (es, read, new))
        ]
        | inr (d, at_d, holds) ↦ inr (d, Memᴰ.tail at_d, holds)
      ]

      from : (r : Bytes) → Memᴰ r set ⊎ SomeHolds r (dir ∷ dirs) → Memᴰ r names
      from r (inl old) = (same r).1 (inl (add_entries_left es set r old))
      from r (inr (d, m, (es', read', new))) = elim (Memᴰ.cases_cons m) [
        | inl e ↦
            let same_es : es' ≡ es = cc (sym read' ∙ ap read_dir e ∙ read) in
            (same r).1 (inl (add_entries_right es set r (rw same_es at new)))
        | inr m' ↦ (same r).1 (inr (d, m', (es', read', new)))
      ]
  Says-entries dir dirs set es (unlisted d) read (m, un) = (Memᴰ.tail m, un)

  -- A directory that may be missing comes first.
  Says-missing :
      (dir : Bytes) (dirs set : List Bytes) (res : Regions)
      → read_dir dir ≡ not_exist
      → given ≡ false
      → Says dirs set res
      → Says (dir ∷ dirs) set res
  Says-missing dir dirs set (listed names) missing default (up, same, all) =
      (up, (λ r. (to r, from r)), (inr (missing, default), all))
    where
      to : (r : Bytes) → Memᴰ r names → Memᴰ r set ⊎ SomeHolds r (dir ∷ dirs)
      to r m = elim ((same r).0 m) [
        | inl old ↦ inl old
        | inr (d, at_d, holds) ↦ inr (d, Memᴰ.tail at_d, holds)
      ]

      from : (r : Bytes) → Memᴰ r set ⊎ SomeHolds r (dir ∷ dirs) → Memᴰ r names
      from r (inl old) = (same r).1 (inl old)
      from r (inr (d, m, (es, read, new))) = elim (Memᴰ.cases_cons m) [
        | inl e ↦ absurd (cc (sym read ∙ ap read_dir e ∙ missing))
        | inr m' ↦ (same r).1 (inr (d, m', (es, read, new)))
      ]
  Says-missing dir dirs set (unlisted d) missing default (m, un) = (Memᴰ.tail m, un)

  scan_dirs-missing_chosen :
      (dir : Bytes) (dirs set : List Bytes)
      → read_dir dir ≡ not_exist
      → given ≡ true
      → scan_dirs read_dir given (dir ∷ dirs) set ≡ unlisted dir
  unfolding scan_dirs
  scan_dirs-missing_chosen dir dirs set missing chosen = rw (scan_dirs, missing, chosen)

  scan_dirs-missing_default :
      (dir : Bytes) (dirs set : List Bytes)
      → read_dir dir ≡ not_exist
      → given ≡ false
      → scan_dirs read_dir given (dir ∷ dirs) set ≡ scan_dirs read_dir given dirs set
  unfolding scan_dirs
  scan_dirs-missing_default dir dirs set missing default = rw (scan_dirs, missing, default)

  scan_dirs-Says :
      (dirs set : List Bytes) → Distinct set → Says dirs set (scan_dirs read_dir given dirs set)
  unfolding scan_dirs
  scan_dirs-Says [] set d = (
    sort-Ascending set d,
    (λ r. (
      (λ m. inl (mem_of_sort r set m)),
      (λ h. elim h [ inl m ↦ sort_of_mem r set m | inr (dir, m, holds) ↦ absurd (Memᴰ.not-nil m) ]),
    )),
    tt,
  )
  scan_dirs-Says (dir ∷ dirs) set d = elim (Listing-cases (read_dir dir)) [
    | inl (es, read) ↦
        rw (scan_dirs, read)
          (Says-entries dir dirs set es _ read
            (scan_dirs-Says dirs (add_entries es set) (add_entries-Distinct es set d)))
    | inr (inr bad) ↦ rw (scan_dirs, bad) (Memᴰ.head refl, inl bad)
    | inr (inl missing) ↦ elim (Bool-cases given) [
      | inl chosen ↦
          rw (scan_dirs-missing_chosen dir dirs set missing chosen)
            (Memᴰ.head refl, inr (missing, chosen))
      | inr default ↦
          rw (scan_dirs-missing_default dir dirs set missing default)
            (Says-missing dir dirs set _ missing default (scan_dirs-Says dirs set d))
    ]
  ]

  -- What a list of regions says of the directories.
  abbrev pub Lists : List Bytes → Regions → Type 0
  Lists dirs (listed names) =
      Ascending names × ((r : Bytes) → Memᴰ r names ↔ SomeHolds r dirs) × All IsReadable dirs
  Lists dirs (unlisted dir) = Memᴰ dir dirs × IsUnreadable dir

  Says-Lists : (dirs : List Bytes) (res : Regions) → Says dirs [] res → Lists dirs res
  Says-Lists dirs (listed names) (up, same, all) = (
    up,
    (λ r. (
      (λ m. elim ((same r).0 m) [ inl none_ ↦ absurd (Memᴰ.not-nil none_) | inr h ↦ h ]),
      (λ h. (same r).1 (inr h)),
    )),
    all,
  )
  Says-Lists dirs (unlisted dir) h = h

-- The names that are listed are in ascending order, so none comes twice, and they are exactly the
-- regions that have a file of their name and .conf, which is no directory, in one of the directories;
-- all of these were read, but a default directory may be missing. Otherwise one of them was not read.
pub run_list-Lists :
    (read_dir : Bytes → Listing) (user_dir : Option Bytes) (config_dir : Bytes)
    → Lists read_dir
        (is_given config_dir)
        (config_dirs user_dir config_dir)
        (run_list read_dir user_dir config_dir)
unfolding run_list
run_list-Lists read_dir user_dir config_dir =
    Says-Lists read_dir (is_given config_dir) (config_dirs user_dir config_dir) _
      (scan_dirs-Says read_dir (is_given config_dir) (config_dirs user_dir config_dir) [] tt)
