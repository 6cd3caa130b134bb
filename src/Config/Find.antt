-- ===== src/Config/Find.antt =====
-- Which file `findConfig` finds.
use vpnproxy.Base.{
  Bool, true, false, List, [], ◌∷◌, ◌++◌, append_assoc, append-nil, All-append, map, Option, none,
  some, sym, ◌∙◌, ◌≢◌, ◌≡◌, inl, inr, refl, Bytes, codes, All, Bool-cases,
}
use vpnproxy.Config.{
  config_dirs, FindResult, found_config, missing_in, missing, first_existing, find_config,
}

module _ (join : Bytes → Bytes → Bytes) where
  -- Where the file of a region is looked for: in the given directory alone; or, if none is given, first
  -- in the working directory and then in the user's, if there is one.
  abbrev pub candidates_for : Bytes → Bytes → Option Bytes → List Bytes
  candidates_for region (c ∷ dir) user = join (c ∷ dir) (region ++ codes ".conf") ∷ []
  candidates_for region [] (some user) =
      join (codes ".") (region ++ codes ".conf") ∷ join user (region ++ codes ".conf") ∷ []
  candidates_for region [] none = join (codes ".") (region ++ codes ".conf") ∷ []

module _ (join : Bytes → Bytes → Bytes) (stat : Bytes → Bool) (user_dir : Option Bytes) where
  abbrev pub IsMissing : Bytes → Type 0
  IsMissing p = stat p ≡ false

  -- `p` exists, and none of those before it.
  abbrev pub IsFirst : Bytes → List Bytes → Type 0
  IsFirst p ps =
      (before : List Bytes) × (after : List Bytes) × (ps ≡ before ++ p ∷ after)
      × All IsMissing before
      × (stat p ≡ true)

  -- A file found is the first candidate that exists. If none exists, the result says where was looked: in
  -- the directory given, or at which candidates.
  abbrev pub Explains : Bytes → List Bytes → FindResult → Type 0
  Explains given ps (found_config p) = IsFirst p ps
  Explains given ps (missing_in dir) = (dir ≡ given) × (given ≢ []) × All IsMissing ps
  Explains given ps (missing all) = (all ≡ ps) × (given ≡ []) × All IsMissing ps

  -- The loop, which has `before` behind it.
  first_existing-Explains :
      (all before ps : List Bytes)
      → all ≡ before ++ ps
      → All IsMissing before
      → Explains [] all (first_existing join stat user_dir all ps)
  unfolding first_existing
  first_existing-Explains all before [] e h = (refl, refl, rw (e, append-nil before) h)
  first_existing-Explains all before (p ∷ ps) e h = elim (Bool-cases (stat p)) [
    | inl up ↦ rw (first_existing, up) (before, ps, e, h, up)
    | inr down ↦
        rw (first_existing, down)
          (first_existing-Explains all (before ++ p ∷ []) ps
            (e ∙ sym (append_assoc before (p ∷ []) ps))
            (All-append IsMissing before (p ∷ []) h (down, tt)))
  ]

  -- If a directory is given, the file found is the region's file there. If not, it is the one in the
  -- working directory, or else, where that does not exist, the one in the user's directory. If none is
  -- found, none of these exists, and the result names the directory given, or else the files looked for.
  pub find_config-Explains :
      (region dir : Bytes)
      → Explains dir
          (candidates_for join region dir user_dir)
          (find_config join stat user_dir region dir)
  unfolding find_config
  find_config-Explains region [] = by_user user_dir refl
    where
      searched : Option Bytes → List Bytes
      searched user = map (λ dir. join dir (region ++ codes ".conf")) (config_dirs user [])

      by_user :
          (user : Option Bytes)
          → user_dir ≡ user
          → Explains []
              (candidates_for join region [] user)
              (first_existing join stat user_dir (searched user) (searched user))
      by_user none e = first_existing-Explains (searched none) [] (searched none) refl tt
      by_user (some u) e =
          first_existing-Explains (searched (some u)) [] (searched (some u)) refl tt
  find_config-Explains region (c ∷ dir) =
      elim (Bool-cases (stat (join (c ∷ dir) (region ++ codes ".conf")))) [
        | inl up ↦ rw (find_config, up) ([], [], refl, tt, up)
        | inr down ↦ rw (find_config, down) (refl, (λ e. cc e), (down, tt))
      ]
