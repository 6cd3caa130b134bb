-- ===== src/Vault/Login.antt =====
-- `oidcLogin` of vault.go: the login in the browser. The channel `done` holds one result; the handler of
-- the callback offers its own and does not wait.
pub mod First
use vpnproxy.Base.{ℕ, List, [], ◌∷◌, ◌++◌, Option, none, some, Bytes, codes}
use vpnproxy.Go.Text.{trim}
use vpnproxy.Go.Strconv.{itoa}
use vpnproxy.Vault.Client.{Client, VaultResponse, Pairs, Done, replied, Web, do_request}
use vpnproxy.Vault.Html.{html_escape}

pub data LoginError : Type 0 where
  no_listener no_nonce no_auth_url no_client_token login_timed_out : LoginError
  refused : Done → LoginError

pub data LoginResult : Type 0 where
  token : Bytes → LoginResult
  login_failed : LoginError → LoginResult

-- The flags of the login, and what the system gives: the port of the listener, and the random nonce in
-- hexadecimal. `decode_auth_url` gives `none` on an error.
pub record Login : Type 0 where
  pub mount : Bytes
  pub role : Bytes
  pub listener : Option ℕ
  pub nonce : Option Bytes
  pub decode_auth_url : Bytes → Option Bytes

-- The form of a callback; the main goroutine receives from `done`; its time is over.
pub data Event : Type 0 where
  calls_back : (Bytes → Bytes) → Event
  receives times_out : Event

abbrev pub redirect_uri : ℕ → Bytes
redirect_uri port = codes "http://localhost:" ++ (itoa port ++ codes "/oidc/callback")

-- `cb.Auth == nil || cb.Auth.ClientToken == ""`
unfoldable pub token_of : Option Bytes → LoginResult
token_of none = login_failed no_client_token
token_of (some []) = login_failed no_client_token
token_of (some (c ∷ s)) = token (c ∷ s)

unfoldable pub result_of : Done → LoginResult
result_of (replied v) = token_of v.client_token
result_of other = login_failed (refused other)

-- The status and the page that the browser gets; `text` is the error's.
unfoldable pub page : (LoginError → Bytes) → LoginResult → ℕ × Bytes
page text (token t) = (
  200,
  codes
      "<html><body><h2>Vault login succeeded</h2><p>You can close this window and return to vpnproxy.</p></body></html>",
)
page text (login_failed e) = (
  400,
  codes "<html><body><h2>Vault login failed</h2><p>"
      ++ (html_escape (text e) ++ codes "</p></body></html>"),
)

-- `select { case done <- res: default: }`
abbrev pub offer : LoginResult → Option LoginResult → Option LoginResult
offer r none = some r
offer r (some first) = some first

module _ (web : Web) (c : Client) (login : Login) where
  -- `strings.Trim(mount, "/")`
  abbrev pub auth_path : Bytes → Bytes
  auth_path rest = codes "auth/" ++ (trim login.mount b'/' ++ rest)

  unfoldable pub callback : Bytes → (Bytes → Bytes) → LoginResult
  callback nonce form = result_of (
      do_request web c (codes "GET") (auth_path (codes "/oidc/callback"))
        ((codes "state", form (codes "state"))
          ∷ (codes "code", form (codes "code"))
          ∷ (codes "id_token", form (codes "id_token"))
          ∷ (codes "client_nonce", nonce)
          ∷ [])
        none)

  -- From the wait on, with what `done` holds; `none` while it waits.
  unfoldable pub wait_for_login : Bytes → List Event → Option LoginResult → Option LoginResult
  wait_for_login nonce [] channel = none
  wait_for_login nonce (calls_back form ∷ events) channel =
      wait_for_login nonce events (offer (callback nonce form) channel)
  wait_for_login nonce (receives ∷ events) none = wait_for_login nonce events none
  wait_for_login nonce (receives ∷ events) (some r) = some r
  wait_for_login nonce (times_out ∷ events) channel = some (login_failed login_timed_out)

  abbrev pub with_auth_url : Bytes → List Event → Option Bytes → Option LoginResult
  with_auth_url nonce events none = some (login_failed no_auth_url)
  with_auth_url nonce events (some []) = some (login_failed no_auth_url)
  with_auth_url nonce events (some (x ∷ auth_url)) = wait_for_login nonce events none

  abbrev pub with_auth : Bytes → List Event → Done → Option LoginResult
  with_auth nonce events (replied v) = with_auth_url nonce events (login.decode_auth_url v.reply)
  with_auth nonce events other = some (login_failed (refused other))

  unfoldable pub request_auth : ℕ → Bytes → Done
  request_auth port nonce =
      do_request web c (codes "POST") (auth_path (codes "/oidc/auth_url")) [] (
        some (
          (codes "role", login.role)
          ∷ (codes "redirect_uri", redirect_uri port)
          ∷ (codes "client_nonce", nonce)
          ∷ []))

  abbrev pub with_nonce : ℕ → List Event → Option Bytes → Option LoginResult
  with_nonce port events none = some (login_failed no_nonce)
  with_nonce port events (some nonce) = with_auth nonce events (request_auth port nonce)

  abbrev pub with_listener : List Event → Option ℕ → Option LoginResult
  with_listener events none = some (login_failed no_listener)
  with_listener events (some port) = with_nonce port events login.nonce

  unfoldable pub oidc_login : List Event → Option LoginResult
  oidc_login events = with_listener events login.listener
