-- ===== src/Vault/Atomic.antt =====
-- What `writeFileAtomic` has written (vault.go).
use vpnproxy.Base.{
  Bool, true, false, not, ◌||◌, [], Option, none, some, ◌≡◌, ◌≢◌, inl, inr, refl, sym, ap, ◌∙◌,
  Bytes, Bool-cases, Option-cases, if◌then◌else◌,
}
use mathlib.Core.Path.{subst}
use vpnproxy.Go.Text.{equal}
use vpnproxy.Go.Text.Laws.{equal_iff_eq, equal_self}
use vpnproxy.Vault.{Files, set_file, Env, write_temp, write_file_atomic}

pub set_file_self : (p : Bytes) (c : Option Bytes) (files : Files) → set_file p c files p ≡ c
set_file_self p c files = rw (equal_self p)

pub set_file_apart :
    (p q : Bytes) (c : Option Bytes) (files : Files) → q ≢ p → set_file p c files q ≡ files q
set_file_apart p q c files ne = elim (Bool-cases (equal q p)) [
  | inl same ↦ absurd (ne (equal_iff_eq q p same))
  | inr other ↦ rw other
]

-- The files after a write: of the paths that are not the temporary file's, none has changed, or only
-- the target, which holds all of the content.
abbrev pub IsAllOrNothing : Bytes → Bytes → Files → Option Bytes → Files × Bool → Type 0
IsAllOrNothing path content files tmp (files', false) =
    (q : Bytes) → tmp ≢ some q → files' q ≡ files q
IsAllOrNothing path content files tmp (files', true) =
    (files' path ≡ some content) × ((q : Bytes) → q ≢ path → tmp ≢ some q → files' q ≡ files q)

dropped :
    (tmp q : Bytes) (c : Option Bytes) (files : Files)
    → some tmp ≢ some q
    → set_file tmp none (set_file tmp c files) q ≡ files q
dropped tmp q c files ne =
    let apart : q ≢ tmp = λ e. ne (ap some (sym e)) in
    set_file_apart tmp q none (set_file tmp c files) apart ∙ set_file_apart tmp q c files apart

-- The rename: the target holds what the temporary file held, which is gone.
renamed :
    (tmp path content : Bytes) (files : Files)
    → some tmp ≢ some path
    → let full = set_file tmp (some content) files in
      IsAllOrNothing path content files
        (some tmp)
        (set_file tmp none (set_file path (full tmp) (set_file tmp none full)), true)
renamed tmp path content files ne =
    let full = set_file tmp (some content) files in
    let gone = set_file tmp none full in
    let target : path ≢ tmp = λ e. ne (ap some (sym e)) in
    (
      set_file_apart tmp path none (set_file path (full tmp) gone) target
          ∙ set_file_self path (full tmp) gone
          ∙ set_file_self tmp (some content) files,
      (λ q other apart.
          let away : q ≢ tmp = λ e. apart (ap some (sym e)) in
          set_file_apart tmp q none (set_file path (full tmp) gone) away
          ∙ set_file_apart path q (full tmp) gone other
          ∙ dropped tmp q (some content) files apart),
    )

module _ (env : Env) (tmp path content : Bytes) (files : Files) (ne : some tmp ≢ some path) where
  abbrev Is : Files × Bool → Type 0
  Is = IsAllOrNothing path content files (some tmp)

  full_cases :
      (b : Bool)
      → Is (
          if b then (set_file tmp none (set_file tmp (some content) files), false) else (
            set_file tmp none (
                set_file path
                  (set_file tmp (some content) files tmp)
                  (set_file tmp none (set_file tmp (some content) files))),
            true,
          ))
  full_cases true = λ q apart. dropped tmp q (some content) files apart
  full_cases false = renamed tmp path content files ne

  write_temp-bad :
      env.chmods ≡ false
      → write_temp env tmp path content files
        ≡ (set_file tmp none (set_file tmp (some []) files), false)
  unfolding write_temp
  write_temp-bad bad = rw (write_temp, bad)

  write_temp-cut :
      (part : Bytes)
      → env.chmods ≡ true
      → env.written ≡ some part
      → write_temp env tmp path content files
        ≡ (set_file tmp none (set_file tmp (some part) files), false)
  unfolding write_temp
  write_temp-cut part good cut = rw (write_temp, good, cut)

  write_temp-whole :
      env.chmods ≡ true
      → env.written ≡ none
      → write_temp env tmp path content files ≡ (
          if not env.closes || not env.renames
          then (set_file tmp none (set_file tmp (some content) files), false)
          else (
            set_file tmp none (
                set_file path
                  (set_file tmp (some content) files tmp)
                  (set_file tmp none (set_file tmp (some content) files))),
            true,
          ))
  unfolding write_temp
  write_temp-whole good whole = rw (write_temp, good, whole)

  write_temp-IsAllOrNothing : Is (write_temp env tmp path content files)
  write_temp-IsAllOrNothing = elim (Bool-cases env.chmods) [
    | inr bad ↦ subst Is (sym (write_temp-bad bad)) (λ q apart. dropped tmp q (some []) files apart)
    | inl good ↦ elim (Option-cases env.written) [
      | inr (part, cut) ↦
          subst Is (sym (write_temp-cut part good cut))
            (λ q apart. dropped tmp q (some part) files apart)
      | inl whole ↦
          subst Is (sym (write_temp-whole good whole))
            (full_cases (not env.closes || not env.renames))
    ]
  ]

-- A write succeeds with the target holding all of the content, or it fails and the target is as before.
-- No other file changes, apart from the temporary one, which has another name than the target.
pub write_file_atomic-IsAllOrNothing :
    (env : Env) (path content : Bytes) (files : Files)
    → env.temp ≢ some path
    → IsAllOrNothing path content files env.temp (write_file_atomic env path content files)
unfolding write_file_atomic
write_file_atomic-IsAllOrNothing env path content files ne = elim (Option-cases env.temp) [
  | inl none_ ↦ rw (write_file_atomic, none_) (λ q apart. refl)
  | inr (tmp, made) ↦
      rw (write_file_atomic, made)
        (write_temp-IsAllOrNothing env tmp path content files (rw made at ne))
]
