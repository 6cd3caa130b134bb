-- ===== src/Vault/Fetch/Existing.antt =====
-- `existingVaultToken` and `saveVaultToken` (vault.go), and which existing token is used.
use vpnproxy.Base.{
  true, false, [], ◌∷◌, ◌++◌, Option, none, some, ◌≡◌, ◌≢◌, ◌⊎◌, inl, inr, refl, sym, ◌∙◌, Bytes,
  codes, reverse, Bool-cases, Option-cases, arith,
}
use vpnproxy.Go.Text.{trim_space, trim_left}
use vpnproxy.Vault.Client.{
  Client, Request, VaultResponse, Done, replied, header_if, is_replied, do_request, token_valid,
  request,
}
use vpnproxy.Vault.Client.Served.{IsServed, do_request-IsServed}
use vpnproxy.Vault.Login.{Login}
use vpnproxy.Vault.Fetch.{
  FetchFlags, FetchEnv, Saving, not_saved, saved_at, save_failed, token_path, existing_token_in,
  save_token, client, logs_in,
}

module _ (env : FetchEnv) where
  abbrev pub token_file : Bytes → Bytes
  token_file home = env.join home (codes ".vault-token")

  -- The token of the user's file, or nothing, where there is no home or the file cannot be read.
  abbrev pub IsFiled : Bytes → Type 0
  IsFiled t =
      ((home content : Bytes) × (env.home ≡ some home)
        × (env.read_file (token_file home) ≡ some content)
        × (t ≡ trim_space content))
      ⊎ ((t ≡ [])
          × ((env.home ≡ none)
              ⊎ ((home : Bytes) × (env.home ≡ some home)
                  × (env.read_file (token_file home) ≡ none))))

  -- The token that is there already: that of the environment, if it has one, and else the file's.
  abbrev pub IsExisting : Bytes → Type 0
  IsExisting t = ((env.env_token ≢ []) × (t ≡ env.env_token)) ⊎ ((env.env_token ≡ []) × IsFiled t)

  existing_token_in-IsFiled :
      (home : Option Bytes)
      → env.home ≡ home
      → IsFiled (existing_token_in env [] (token_path env home))
  unfolding existing_token_in
  existing_token_in-IsFiled none h = inr (refl, inl h)
  existing_token_in-IsFiled (some home) h = elim (Option-cases (env.read_file (token_file home))) [
    | inl gone ↦ rw gone (inr (refl, inr (home, h, gone)))
    | inr (content, got) ↦ rw got (inl (home, content, h, got, refl))
  ]

  pub existing_token_in-IsExisting :
      (tok : Bytes) (home : Option Bytes)
      → env.env_token ≡ tok
      → env.home ≡ home
      → IsExisting (existing_token_in env tok (token_path env home))
  unfolding existing_token_in
  existing_token_in-IsExisting [] home e h = inr (e, existing_token_in-IsFiled home h)
  existing_token_in-IsExisting (c ∷ s) home e h = inl ((λ n. cc (sym e ∙ n)), sym e)

  -- The token is in the user's file now, or the write failed, or the user has no home.
  abbrev pub IsSaved : Bytes → Saving → Type 0
  IsSaved t saving =
      ((home : Bytes) × (env.home ≡ some home)
        × (((env.write_token (token_file home) t ≡ true) × (saving ≡ saved_at (token_file home) t))
            ⊎ ((env.write_token (token_file home) t ≡ false)
                × (saving ≡ save_failed (token_file home) t))))
      ⊎ ((env.home ≡ none) × (saving ≡ not_saved))

  pub save_token-IsSaved :
      (t : Bytes) (home : Option Bytes)
      → env.home ≡ home
      → IsSaved t (save_token env t (token_path env home))
  unfolding save_token
  save_token-IsSaved t none h = inr (h, refl)
  save_token-IsSaved t (some home) h = elim (Bool-cases (env.write_token (token_file home) t)) [
    | inl up ↦ inl (home, h, inl (up, rw up refl))
    | inr down ↦ inl (home, h, inr (down, rw down refl))
  ]

  module _ (f : FetchFlags) where
    abbrev pub base : Bytes
    base = reverse (trim_left (reverse f.addr) b'/')

    abbrev pub caller : Bytes → Client
    caller t = record { addr = base; namespace = f.namespace; token = t }

    -- The login that the flags and the system ask for.
    abbrev pub asked_login : Login
    asked_login = record {
      mount = f.oidc_mount;
      role = f.oidc_role;
      listener = env.listener f.oidc_port;
      nonce = env.nonce;
      decode_auth_url = env.decode_auth_url;
    }

    -- What asks Vault about a token.
    abbrev pub lookup_self : Bytes → Request
    lookup_self t = record {
      method = codes "GET";
      url = base ++ (codes "/v1/" ++ codes "auth/token/lookup-self");
      headers =
          header_if (codes "X-Vault-Token") t
            (header_if (codes "X-Vault-Namespace") f.namespace []);
      body = none;
    }

    -- Vault replies to a token's request about itself.
    abbrev pub IsAccepted : Bytes → Type 0
    IsAccepted t =
        (v : VaultResponse) × (do_request env.web (caller t) (codes "GET")
            (codes "auth/token/lookup-self") [] none
          ≡ replied v)

    replied_by : (d : Done) → is_replied d ≡ true → (v : VaultResponse) × (d ≡ replied v)
    replied_by (replied v) h = (v, refl)
    replied_by _ h = absurd (cc h)

    -- A token that is used without a login.
    abbrev pub IsGood : Bytes → Type 0
    IsGood t = (t ≢ []) × IsAccepted t × IsServed env.web (lookup_self t)

    pub logs_in-IsGood : (t : Bytes) → logs_in env f t ≡ false → IsGood t
    unfolding token_valid client request trim_left
    logs_in-IsGood [] h = absurd (cc h)
    logs_in-IsGood (c ∷ s) h =
        let (v, e) =
          replied_by
            (do_request env.web (caller (c ∷ s)) (codes "GET") (codes "auth/token/lookup-self") []
              none)
            (ground arith) in
        (
          (λ n. cc n),
          (v, e),
          do_request-IsServed env.web (caller (c ∷ s)) (codes "GET")
              (codes "auth/token/lookup-self") [] v e,
        )

    pub logs_in-refused : (t : Bytes) → logs_in env f t ≡ true → (t ≡ []) ⊎ (¬ IsAccepted t)
    unfolding token_valid client
    logs_in-refused [] h = inl refl
    logs_in-refused (c ∷ s) h = inr (λ (v, e). cc (rw e at h))
