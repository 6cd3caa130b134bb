-- ===== src/Vault/Fetch/Granted.antt =====
-- With which token a secret is fetched (vault.go).
use vpnproxy.Base.{List, [], ◌∷◌, codes, Option, none, some, ◌≡◌, ◌≢◌, ◌⊎◌, Bytes}
use vpnproxy.Vault.{Files, Field, Report, write_configs}
use vpnproxy.Vault.Kv.{kv_read, Secret, secret}
use vpnproxy.Vault.Client.{do_request}
use vpnproxy.Vault.Fetch.Existing.{asked_login, IsExisting, IsSaved, caller, IsAccepted, IsGood}
use vpnproxy.Vault.Login.First.{IsGranted}
use vpnproxy.Vault.Fetch.{data_of, client, FetchFlags, Fetched, FetchEnv, Saving, not_saved, client}

module _ (env : FetchEnv) (f : FetchFlags) where
  -- The existing token is used as it is, and nothing is saved; or there is none, or Vault does not reply
  -- to it, and the token is one of this login, and is saved.
  abbrev pub IsUsable : Bytes → Bytes → Saving → Type 0
  IsUsable existing t saved =
      ((t ≡ existing) × IsGood env f t × (saved ≡ not_saved))
      ⊎ (((existing ≡ []) ⊎ (¬ IsAccepted env f existing))
          × IsGranted env.web (caller env f existing) (asked_login env f) env.events t
          × IsSaved env t saved)

  -- What `kvRead` gives where each of its requests is a GET with this token.
  abbrev pub read_as : Bytes → Bytes → Secret (List Field)
  read_as t =
      kv_read
        (λ api_path.
          data_of env f (do_request env.web (caller env f t) (codes "GET") api_path [] none))
        env.as_mount env.as_data env.as_data2

  pub record IsFetched (kv_path dir : Bytes) (r : Fetched) (done : Files × Report) : Type 0 where
    pub existing : Bytes
    pub found : IsExisting env existing
    pub tok : Bytes
    pub usable : IsUsable existing tok r.saved
    pub fields : List Field
    pub secret_read : read_as tok kv_path ≡ secret fields
    pub written : done ≡ write_configs (env.path dir) env.writes fields env.made env.files

  -- What the arguments say, and the files that are written for them.
  abbrev pub IsDone : Fetched → Files × Report → Type 0
  IsDone r done =
      (kv_path dir : Bytes) × (f.args ≡ kv_path ∷ [])
      × (f.addr ≢ [])
      × (((f.dir ≢ []) × (dir ≡ f.dir)) ⊎ ((f.dir ≡ []) × (env.default_dir ≡ some dir)))
      × IsFetched kv_path dir r done

  -- The directory given, or else the default.
  abbrev IsOutDir : Bytes → Option Bytes → Type 0
  IsOutDir given none = Unit
  IsOutDir given (some dir) =
      ((given ≢ []) × (dir ≡ given)) ⊎ ((given ≡ []) × (env.default_dir ≡ some dir))
