-- ===== src/Vault/Login/First.antt =====
-- Which callback decides the login (vault.go).
use vpnproxy.Base.{
  codes, ◌++◌, some_same, ℕ, List, [], ◌∷◌, Option, none, some, ◌≡◌, ◌≢◌, ◌∙◌, ap, refl, Bytes,
}
use vpnproxy.Vault.Client.{
  Client, Done, replied, vault_error, not_marshalled, bad_request, not_sent, not_read, undecoded,
  Web, Pairs, Request, VaultResponse, request, header_if, do_request,
}
use vpnproxy.Go.Strconv.{itoa}
use vpnproxy.Vault.Client.Served.{IsServed, do_request-IsServed}
use vpnproxy.Go.Text.{trim, trim_left}
use vpnproxy.Vault.Login.{
  LoginResult, token, Login, Event, calls_back, receives, times_out, token_of, result_of, callback,
  wait_for_login, with_auth_url, with_auth, request_auth, with_nonce, with_listener, oidc_login,
}

-- The form of the first callback.
abbrev pub first_form : List Event → Option (Bytes → Bytes)
first_form [] = none
first_form (calls_back form ∷ events) = some form
first_form (receives ∷ events) = first_form events
first_form (times_out ∷ events) = none

-- A text that is there was given, and is not empty.
token_of-token : (o : Option Bytes) (t : Bytes) → token_of o ≡ token t → (o ≡ some t) × (t ≢ [])
unfolding token_of
token_of-token none t h = absurd (cc h)
token_of-token (some []) t h = absurd (cc h)
token_of-token (some (c ∷ s)) t h = (ap some (same h), λ e. cc (same h ∙ e))
  where
    same : {u : Bytes} → token (c ∷ s) ≡ token u → ◌≡◌ {A = Bytes} (c ∷ s) u
    same e = cc

result_of-token :
    (d : Done) (t : Bytes)
    → result_of d ≡ token t
    → (v : VaultResponse) × (d ≡ replied v) × (v.client_token ≡ some t) × (t ≢ [])
unfolding result_of
result_of-token (replied v) t h =
    let (own, full) = token_of-token v.client_token t h in (v, refl, own, full)
result_of-token (vault_error e) t h = absurd (cc h)
result_of-token not_marshalled t h = absurd (cc h)
result_of-token bad_request t h = absurd (cc h)
result_of-token not_sent t h = absurd (cc h)
result_of-token not_read t h = absurd (cc h)
result_of-token undecoded t h = absurd (cc h)

module _ (web : Web) (c : Client) (login : Login) where
  -- What a callback's form and the login's nonce say to Vault.
  abbrev pub callback_query : Bytes → (Bytes → Bytes) → Pairs
  callback_query nonce form =
      (codes "state", form (codes "state"))
      ∷ (codes "code", form (codes "code"))
      ∷ (codes "id_token", form (codes "id_token"))
      ∷ (codes "client_nonce", nonce)
      ∷ []

  abbrev pub callback_path : Bytes
  callback_path = codes "auth/" ++ (trim login.mount b'/' ++ codes "/oidc/callback")

  abbrev pub callback_request : Bytes → (Bytes → Bytes) → Request
  callback_request nonce form = record {
    method = codes "GET";
    url =
        (c.addr ++ (codes "/v1/" ++ callback_path))
        ++ (codes "?" ++ web.encode (callback_query nonce form));
    headers =
        header_if (codes "X-Vault-Token") c.token
          (header_if (codes "X-Vault-Namespace") c.namespace []);
    body = none;
  }

  wait-full :
      (nonce : Bytes) (events : List Event) (r : LoginResult) (t : Bytes)
      → wait_for_login web c login nonce events (some r) ≡ some (token t)
      → r ≡ token t
  unfolding wait_for_login
  wait-full nonce [] r t h = absurd (cc h)
  wait-full nonce (calls_back form ∷ events) r t h = wait-full nonce events r t h
  wait-full nonce (receives ∷ events) r t h = some_same h
  wait-full nonce (times_out ∷ events) r t h = absurd (cc (some_same h))

  -- The token is the one in Vault's reply to the first callback's form, sent with the nonce.
  abbrev pub IsGiven : Bytes → List Event → Bytes → Type 0
  IsGiven nonce events t =
      (form : Bytes → Bytes) × (first_form events ≡ some form)
      × IsServed web (callback_request nonce form)
      × ((v : VaultResponse) × (do_request web c (codes "GET") callback_path
              (callback_query nonce form) none
            ≡ replied v)
          × (v.client_token ≡ some t))
      × (t ≢ [])

  callback-IsGiven :
      (nonce : Bytes) (events : List Event) (form : Bytes → Bytes) (t : Bytes)
      → first_form events ≡ some form
      → callback web c login nonce form ≡ token t
      → IsGiven nonce events t
  unfolding callback request trim_left
  callback-IsGiven nonce events form t first h =
      let (v, e, own, full) = result_of-token _ t h in
      (
        form,
        first,
        do_request-IsServed web c (codes "GET") callback_path (callback_query nonce form) v e,
        (v, e, own),
        full,
      )

  wait-IsGiven :
      (nonce : Bytes) (events : List Event) (t : Bytes)
      → wait_for_login web c login nonce events none ≡ some (token t)
      → IsGiven nonce events t
  unfolding wait_for_login
  wait-IsGiven nonce [] t h = absurd (cc h)
  wait-IsGiven nonce (calls_back form ∷ events) t h =
      callback-IsGiven nonce (calls_back form ∷ events) form t refl
        (wait-full nonce events (callback web c login nonce form) t h)
  wait-IsGiven nonce (receives ∷ events) t h = wait-IsGiven nonce events t h
  wait-IsGiven nonce (times_out ∷ events) t h = absurd (cc (some_same h))

  with_auth_url-IsGiven :
      (nonce : Bytes) (events : List Event) (o : Option Bytes) (t : Bytes)
      → with_auth_url web c login nonce events o ≡ some (token t)
      → IsGiven nonce events t
  with_auth_url-IsGiven nonce events none t h = absurd (cc (some_same h))
  with_auth_url-IsGiven nonce events (some []) t h = absurd (cc (some_same h))
  with_auth_url-IsGiven nonce events (some (x ∷ url)) t h = wait-IsGiven nonce events t h

  with_auth-IsGiven :
      (nonce : Bytes) (events : List Event) (d : Done) (t : Bytes)
      → with_auth web c login nonce events d ≡ some (token t)
      → IsGiven nonce events t
  with_auth-IsGiven nonce events (replied v) t h =
      with_auth_url-IsGiven nonce events (login.decode_auth_url v.reply) t h
  with_auth-IsGiven nonce events (vault_error e) t h = absurd (cc (some_same h))
  with_auth-IsGiven nonce events not_marshalled t h = absurd (cc (some_same h))
  with_auth-IsGiven nonce events bad_request t h = absurd (cc (some_same h))
  with_auth-IsGiven nonce events not_sent t h = absurd (cc (some_same h))
  with_auth-IsGiven nonce events not_read t h = absurd (cc (some_same h))
  with_auth-IsGiven nonce events undecoded t h = absurd (cc (some_same h))

  -- Vault replies to the request that starts a login at this port, with this nonce.
  abbrev pub IsStarted : ℕ → Bytes → Type 0
  IsStarted port nonce =
      (v : VaultResponse) × (do_request web c (codes "POST")
          (codes "auth/" ++ (trim login.mount b'/' ++ codes "/oidc/auth_url")) []
          (some (
            (codes "role", login.role)
            ∷ (
              codes "redirect_uri",
              codes "http://localhost:" ++ (itoa port ++ codes "/oidc/callback"),
            )
            ∷ (codes "client_nonce", nonce)
            ∷ []))
        ≡ replied v)

  with_auth-replied :
      (nonce : Bytes) (events : List Event) (d : Done) (t : Bytes)
      → with_auth web c login nonce events d ≡ some (token t)
      → (v : VaultResponse) × (d ≡ replied v)
  with_auth-replied nonce events (replied v) t h = (v, refl)
  with_auth-replied nonce events (vault_error e) t h = absurd (cc (some_same h))
  with_auth-replied nonce events not_marshalled t h = absurd (cc (some_same h))
  with_auth-replied nonce events bad_request t h = absurd (cc (some_same h))
  with_auth-replied nonce events not_sent t h = absurd (cc (some_same h))
  with_auth-replied nonce events not_read t h = absurd (cc (some_same h))
  with_auth-replied nonce events undecoded t h = absurd (cc (some_same h))

  -- A token of this login: given for the first callback, with the nonce that the login started with.
  pub record IsGranted (events : List Event) (t : Bytes) : Type 0 where
    pub port : ℕ
    pub listening : login.listener ≡ some port
    pub nonce : Bytes
    pub own : login.nonce ≡ some nonce
    pub started : IsStarted port nonce
    pub given : IsGiven nonce events t

  with_nonce-IsGranted :
      (port : ℕ) (events : List Event) (o : Option Bytes) (t : Bytes)
      → login.listener ≡ some port
      → login.nonce ≡ o
      → with_nonce web c login port events o ≡ some (token t)
      → IsGranted events t
  unfolding request_auth
  with_nonce-IsGranted port events none t listening own h = absurd (cc (some_same h))
  with_nonce-IsGranted port events (some nonce) t listening own h = record {
    port = port;
    listening = listening;
    started = with_auth-replied nonce events (request_auth web c login port nonce) t h;
    nonce = nonce;
    own = own;
    given = with_auth-IsGiven nonce events (request_auth web c login port nonce) t h;
  }

  with_listener-IsGranted :
      (events : List Event) (o : Option ℕ) (t : Bytes)
      → login.listener ≡ o
      → with_listener web c login events o ≡ some (token t)
      → IsGranted events t
  with_listener-IsGranted events none t listening h = absurd (cc (some_same h))
  with_listener-IsGranted events (some port) t listening h =
      with_nonce-IsGranted port events login.nonce t listening refl h

  pub oidc_login-IsGranted :
      (events : List Event) (t : Bytes)
      → oidc_login web c login events ≡ some (token t)
      → IsGranted events t
  unfolding oidc_login
  oidc_login-IsGranted events t h = with_listener-IsGranted events login.listener t refl h
