-- ===== src/Vault/Configs.antt =====
-- What `writeConfigs` leaves behind.
use mathlib.Core.Path.{subst}
use vpnproxy.Base.{
  ℕ, ◌+◌, Bool, true, false, List, [], ◌∷◌, Option, none, some, ◌≡◌, ◌≢◌, ◌↔◌, ◌⊎◌, inl, inr, refl,
  sym, ap, ◌∙◌, Bytes, All, Memᴰ, Bool-cases, Option-cases,
}
use vpnproxy.Go.Text.{equal, sort}
use vpnproxy.Go.Text.Laws.{equal_iff_eq, equal_self}
use vpnproxy.Go.Text.Sort.{Ascending, Distinct, All-sort, sort-Ascending, mem_of_sort, sort_of_mem}
use vpnproxy.Vault.{
  Files, Env, write_file_atomic, is_region_name, Field, Refusal, no_fields, check_fields,
  content_of, end_line, names_of, Report, written, refused, no_directory, not_written, write_names,
  conclude, has_fields, write_valid, write_configs,
}
use vpnproxy.Vault.Fields.{IsValid, Explains, check_fields-Checked}
use vpnproxy.Vault.Contents.{IsHeld, IsWritable, names_of-IsWritable}
use vpnproxy.Vault.Atomic.{IsAllOrNothing, write_file_atomic-IsAllOrNothing}

module _ (path : Bytes → Bytes) (env : ℕ → Env) (fields : List Field)
    (path_apart : (m n : Bytes)
      → is_region_name m ≡ true
      → is_region_name n ≡ true
      → path m ≡ path n
      → m ≡ n)
    (temp_apart : (i : ℕ) (n : Bytes)
      → is_region_name n ≡ true
      → (env i).temp ≢ some (path n)) where
  -- What the file of a name is to hold: all of a field of that name, ended by a line end.
  abbrev pub IsNew : Bytes → Option Bytes → Type 0
  IsNew name held = (content : Bytes) × (held ≡ some content) × IsHeld fields name content

  abbrev pub OldOrNew : Files → Files → Bytes → Type 0
  OldOrNew files files' name =
      (files' (path name) ≡ files (path name)) ⊎ IsNew name (files' (path name))

  -- Neither a target nor a temporary file.
  abbrev pub IsOther : Bytes → Type 0
  IsOther q =
      ((n : Bytes) → is_region_name n ≡ true → q ≢ path n) × ((i : ℕ) → (env i).temp ≢ some q)

  abbrev pub Kept : Files → Files → Type 0
  Kept files files' =
      ((r : Bytes) → is_region_name r ≡ true → OldOrNew files files' r)
      × ((q : Bytes) → IsOther q → files' q ≡ files q)

  abbrev Ending : List Bytes → Files × Option Bytes → Type 0
  Ending names (files', none) = All (λ r. IsNew r (files' (path r))) names
  Ending names (files', some name) = Memᴰ name names

  Kept-trans : (f g h : Files) → Kept f g → Kept g h → Kept f h
  Kept-trans f g h (a, b) (a', b') = (
    (λ r ok_. elim (a' r ok_) [
      | inr new ↦ inr new
      | inl same ↦ elim (a r ok_) [
        | inl old ↦ inl (same ∙ old)
        | inr new ↦ inr (subst (IsNew r) (sym same) new)
      ]
    ]),
    (λ q other. b' q other ∙ b q other),
  )

  module _ (i : ℕ) (name : Bytes) (files : Files) (writable : IsWritable fields name) where
    abbrev done : Files × Bool
    done = write_file_atomic (env i) (path name) (end_line (content_of fields name)) files

    all_or_nothing :
        IsAllOrNothing (path name) (end_line (content_of fields name)) files (env i).temp done
    all_or_nothing =
        write_file_atomic-IsAllOrNothing (env i) (path name) (end_line (content_of fields name))
          files (temp_apart i name writable.0)

    done-Kept : done.1 ≡ true → Kept files done.0 × IsNew name (done.0 (path name))
    done-Kept e =
        let (written_, same) = rw e at all_or_nothing in
        let new : IsNew name (done.0 (path name)) = (_, written_, writable.1) in
        (
          (
            (λ r ok_. elim (Bool-cases (equal (path r) (path name))) [
              | inl target ↦
                  let r_name : r ≡ name =
                    path_apart r name ok_ writable.0 (equal_iff_eq (path r) (path name) target) in
                  inr (subst (λ x. IsNew x (done.0 (path x))) (sym r_name) new)
              | inr apart ↦ inl (
                  same (path r)
                    (λ q. cc (sym apart ∙ ap (equal (path r)) (sym q) ∙ equal_self (path r)))
                    (temp_apart i r ok_))
            ]),
            (λ q (away, temp). same q (away name writable.0) (temp i)),
          ),
          new,
        )

    failed-Kept : done.1 ≡ false → Kept files done.0
    failed-Kept e =
        let same = rw e at all_or_nothing in
        ((λ r ok_. inl (same (path r) (temp_apart i r ok_))), (λ q (away, temp). same q (temp i)))

    write_names-done :
        (names : List Bytes)
        → done.1 ≡ true
        → write_names path env fields i (name ∷ names) files
          ≡ write_names path env fields (i + 1) names done.0
    unfolding write_names
    write_names-done names e = rw (write_names, e)

    write_names-failed :
        (names : List Bytes)
        → done.1 ≡ false
        → write_names path env fields i (name ∷ names) files ≡ (done.0, some name)
    unfolding write_names
    write_names-failed names e = rw (write_names, e)

  abbrev Good : Files → List Bytes → Files × Option Bytes → Type 0
  Good files names res = Kept files res.0 × Ending names res

  Ending-cons :
      (name : Bytes) (names : List Bytes) (g : Files) (res : Files × Option Bytes)
      → IsNew name (g (path name))
      → OldOrNew g res.0 name
      → Ending names res
      → Ending (name ∷ names) res
  Ending-cons name names g (h, none) new (inl same) all = (subst (IsNew name) (sym same) new, all)
  Ending-cons name names g (h, none) new (inr new') all = (new', all)
  Ending-cons name names g (h, some bad) new keep m = Memᴰ.tail m

  write_names-Good :
      (i : ℕ) (names : List Bytes) (files : Files)
      → All (IsWritable fields) names
      → Good files names (write_names path env fields i names files)
  unfolding write_names
  write_names-Good i [] files _ = (((λ r ok_. inl refl), (λ q other. refl)), tt)
  write_names-Good i (name ∷ names) files (good, goods) =
      elim (Bool-cases (done i name files good).1) [
        | inl up ↦
            let first = (done i name files good).0 in
            let (kept, new) = done-Kept i name files good up in
            let (rest, ending) = write_names-Good (i + 1) names first goods in
            subst (Good files (name ∷ names)) (sym (write_names-done i name files good names up)) (
              Kept-trans files first _ kept rest,
              Ending-cons name names first (write_names path env fields (i + 1) names first) new
                  (rest.0 name good.0) ending,
            )
        | inr down ↦
            subst (Good files (name ∷ names))
              (sym (write_names-failed i name files good names down))
              (failed-Kept i name files good down, Memᴰ.head refl)
      ]

  -- What a result says of the fields and of the files, before and after.
  abbrev pub Says : Files → Files × Report → Type 0
  Says files (files', written names) =
      Ascending names
      × ((r : Bytes) → Memᴰ r names ↔ Memᴰ r (names_of fields))
      × All (IsValid fields) fields
      × All (λ r. IsNew r (files' (path r))) names
      × Kept files files'
  Says files (files', refused r) = (files' ≡ files) × Explains fields r
  Says files (files', no_directory) = files' ≡ files
  Says files (files', not_written name) = Memᴰ name (names_of fields) × Kept files files'

  conclude-Says :
      (files : Files) (res : Files × Option Bytes)
      → Distinct (names_of fields)
      → All (IsValid fields) fields
      → Good files (sort (names_of fields)) res
      → Says files (conclude path env fields (sort (names_of fields)) res)
  conclude-Says files (files', none) d valid (kept, all) = (
    sort-Ascending (names_of fields) d,
    (λ r. (mem_of_sort r (names_of fields), sort_of_mem r (names_of fields))),
    valid,
    all,
    kept,
  )
  conclude-Says files (files', some bad) d valid (kept, m) =
      (mem_of_sort bad (names_of fields) m, kept)

  fields-cases : (fs : List Field) → ((fs ≡ []) × (has_fields fs ≡ false)) ⊎ (has_fields fs ≡ true)
  fields-cases [] = inl (refl, refl)
  fields-cases (f ∷ fs) = inr refl

  write_valid-Says :
      (made : Bool) (files : Files)
      → Distinct (names_of fields)
      → All (IsValid fields) fields
      → Says files (write_valid path env fields made files)
  unfolding write_valid
  write_valid-Says false files d valid = refl
  write_valid-Says true files d valid =
      conclude-Says files (write_names path env fields 0 (sort (names_of fields)) files) d valid (
        write_names-Good 0 (sort (names_of fields)) files
          (All-sort (IsWritable fields) (names_of fields) (names_of-IsWritable fields d valid)))

  write_configs-empty :
      (made : Bool) (files : Files)
      → has_fields fields ≡ false
      → write_configs path env fields made files ≡ (files, refused no_fields)
  unfolding write_configs
  write_configs-empty made files h = rw (write_configs, h)

  write_configs-refused :
      (made : Bool) (files : Files) (r : Refusal)
      → has_fields fields ≡ true
      → check_fields fields ≡ some r
      → write_configs path env fields made files ≡ (files, refused r)
  unfolding write_configs
  write_configs-refused made files r h e = rw (write_configs, h, e)

  write_configs-valid :
      (made : Bool) (files : Files)
      → has_fields fields ≡ true
      → check_fields fields ≡ none
      → write_configs path env fields made files ≡ write_valid path env fields made files
  unfolding write_configs
  write_configs-valid made files h e = rw (write_configs, h, e)

  -- The fields of the secret have different names, the files of different region names different
  -- paths, and no temporary file is one of these. If the names are written, they are all names of the
  -- fields, in order, every field is valid, and the file of each name holds the text of a field of that
  -- name: as it is, where it ends in a line end, and with one behind it otherwise. If the fields are
  -- refused, no file has changed, and the reason is true. If a write fails, each file is as it was or
  -- holds all of its field in this way. No other file changes, apart from the temporary ones.
  pub write_configs-Says :
      (made : Bool) (files : Files)
      → Distinct (names_of fields)
      → Says files (write_configs path env fields made files)
  write_configs-Says made files d = elim (fields-cases fields) [
    | inl (none_, lacks) ↦
        subst (Says files) (sym (write_configs-empty made files lacks)) (refl, none_)
    | inr has ↦ elim (Option-cases (check_fields fields)) [
      | inl passed ↦
          let valid : All (IsValid fields) fields =
            rw passed at (check_fields-Checked fields fields) in
          subst (Says files) (sym (write_configs-valid made files has passed))
            (write_valid-Says made files d valid)
      | inr (r, bad) ↦
          let why = rw bad at (check_fields-Checked fields fields) in
          subst (Says files) (sym (write_configs-refused made files r has bad))
            (refl, why (λ f m. m))
    ]
  ]
