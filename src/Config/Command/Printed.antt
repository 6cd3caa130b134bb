-- ===== src/Config/Command/Printed.antt =====
-- Which lines the command list prints (config.go).
use vpnproxy.Base.{
  ℕ, ◌+◌, Bool, true, false, List, [], ◌∷◌, ◌++◌, Option, ◌≡◌, inl, inr, refl, ap, ◌∙◌, arith,
  Bytes, length, Bool-cases,
}
use vpnproxy.Config.{config_dirs}
use vpnproxy.Config.Regions.{Listing, Regions, listed, unlisted, is_given, run_list}
use vpnproxy.Config.Regions.Listed.{Lists, run_list-Lists}
use vpnproxy.Config.Command.{
  list_flags, ListExit, printed, not_printed, not_listed, print_lines, print_regions, list_command,
}

module _ (writes : ℕ → Bool) where
  -- The lines from number `i` on can be written.
  abbrev pub IsWritten : ℕ → List Bytes → Type 0
  IsWritten i [] = Unit
  IsWritten i (name ∷ names) = (writes i ≡ true) × IsWritten (i + 1) names

  -- All lines, or those before the first that cannot be written.
  pub data PrintsFrom (i : ℕ) (names : List Bytes) : List Bytes × ListExit → Type 0 where
    all_out : IsWritten i names → PrintsFrom i names (names, printed)
    cut_short :
        (before : List Bytes) (bad : Bytes) (after : List Bytes)
        → names ≡ before ++ bad ∷ after
        → IsWritten i before
        → writes (i + length before) ≡ false
        → PrintsFrom i names (before, not_printed)

  print_lines-PrintsFrom :
      (i : ℕ) (names : List Bytes) → PrintsFrom i names (print_lines writes i names)
  unfolding print_lines
  print_lines-PrintsFrom i [] = all_out tt
  print_lines-PrintsFrom i (name ∷ names) = elim (Bool-cases (writes i)) [
    | inl out ↦ rw (print_lines, out) (behind out _ (print_lines-PrintsFrom (i + 1) names))
    | inr bad ↦
        let e : i + 0 ≡ i = omega arith in
        rw (print_lines, bad) (cut_short [] name names refl tt (ap writes e ∙ bad))
  ]
    where
      behind :
          writes i ≡ true
          → (r : List Bytes × ListExit) → PrintsFrom (i + 1) names r
          → PrintsFrom i (name ∷ names) (name ∷ r.0, r.1)
      behind out r (all_out all) = all_out (out, all)
      behind out r (cut_short before bad after e all last) =
          let at : i + length (name ∷ before) ≡ (i + 1) + length before = omega arith in
          cut_short (name ∷ before) bad after (ap (λ x. name ∷ x) e) (out, all)
            (ap writes at ∙ last)

  -- What is printed for what was found.
  abbrev pub Prints : Regions → List Bytes × ListExit → Type 0
  Prints (listed names) r = PrintsFrom 0 names r
  Prints (unlisted dir) r = r ≡ ([], not_listed dir)

  print_regions-Prints : (r : Regions) → Prints r (print_regions writes r)
  unfolding print_regions
  print_regions-Prints (listed names) = print_lines-PrintsFrom 0 names
  print_regions-Prints (unlisted dir) = refl

  -- Without arguments, the command prints the names of the regions in ascending order, so none comes twice,
  -- and they are exactly those that have a file of their name and .conf, which is no directory, in one of
  -- the directories; all of these were read, but a default directory may be missing. It stops at the first
  -- line that cannot be written. If one of the directories was not read, it prints nothing, and names it.
  pub list_command-Prints :
      (read_dir : Bytes → Listing) (user_dir : Option Bytes) (config_dir : Bytes)
      → (found : Regions) × Lists read_dir
          (is_given config_dir)
          (config_dirs user_dir config_dir)
          found
        × Prints found (list_command writes read_dir user_dir (list_flags config_dir []))
  unfolding list_command
  list_command-Prints read_dir user_dir config_dir = (
    run_list read_dir user_dir config_dir,
    run_list-Lists read_dir user_dir config_dir,
    print_regions-Prints (run_list read_dir user_dir config_dir),
  )
