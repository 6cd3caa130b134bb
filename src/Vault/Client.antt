-- ===== src/Vault/Client.antt =====
-- `vaultClient.do`, `tokenValid` and `vaultError` of vault.go. Packages json, url and http, and the server,
-- are parameters.
pub mod Served
use vpnproxy.Base.{
  ℕ, Bool, true, false, ◌||◌, List, [], ◌∷◌, ◌++◌, Option, none, some, Bytes, codes, ltb,
  if◌then◌else◌, take,
}
use vpnproxy.Go.Text.{trim_left, join_text}
use vpnproxy.Go.Strconv.{itoa}

pub record Client : Type 0 where
  pub addr : Bytes
  pub namespace : Bytes
  pub token : Bytes

abbrev pub Pairs : Type 0
Pairs = List (Bytes × Bytes)

-- `body` is its JSON text.
pub record Request : Type 0 where
  pub method : Bytes
  pub url : Bytes
  pub headers : Pairs
  pub body : Option Bytes

-- `body` is what can be read of it, if it can be read to the end or the limit.
pub record Response : Type 0 where
  pub status : ℕ
  pub body : Option Bytes

-- `vaultResponse`: `reply` is the raw `data`, `client_token` that of `auth`, if there is one.
pub record VaultResponse : Type 0 where
  pub reply : Bytes
  pub client_token : Option Bytes

abbrev pub empty_response : VaultResponse
empty_response = record { reply = []; client_token = none }

pub record VaultError : Type 0 where
  pub status : ℕ
  pub path : Bytes
  pub errors : List Bytes

pub data Done : Type 0 where
  replied : VaultResponse → Done
  vault_error : VaultError → Done
  not_marshalled bad_request not_sent not_read undecoded : Done

abbrev pub is_replied : Done → Bool
is_replied (replied r) = true
is_replied _ = false

-- `if msg == "" { msg = http.StatusText(e.status) }`; `http.StatusText` is a parameter.
unfoldable pub message : (ℕ → Bytes) → VaultError → Bytes
message status_text e = elim (join_text (codes "; ") e.errors) [
  | [] ↦ status_text e.status
  | c ∷ s ↦ c ∷ s
]

-- `vaultError.Error`
unfoldable pub error_text : (ℕ → Bytes) → VaultError → Bytes
error_text status_text e =
    codes "vault "
    ++ (e.path ++ (codes ": " ++ (itoa e.status ++ (codes " " ++ message status_text e))))

-- `if value != "" { req.Header.Set(name, value) }`
abbrev pub header_if : Bytes → Bytes → Pairs → Pairs
header_if name [] headers = headers
header_if name (c ∷ value) headers = (name, c ∷ value) ∷ headers

abbrev pub content_type : Option Bytes → Pairs
content_type none = []
content_type (some body) = (codes "Content-Type", codes "application/json") ∷ []

-- `16<<20`
abbrev pub body_limit : ℕ
body_limit = 16_777_216

-- The packages and the server. `marshal` gives the JSON text of a map, `encode` that of a query;
-- `accepts` is the success of `NewRequest`, and `none` of `send` an error of the transport. The decoders
-- give `none` on an error, `decode_errors` then the empty list.
pub record Web : Type 0 where
  pub marshal : Pairs → Option Bytes
  pub encode : Pairs → Bytes
  pub accepts : Bytes → Bool
  pub send : Request → Option Response
  pub decode : Bytes → Option VaultResponse
  pub decode_errors : Bytes → List Bytes

module _ (web : Web) (c : Client) (method path : Bytes) where
  abbrev pub url : Pairs → Bytes
  url [] = c.addr ++ (codes "/v1/" ++ trim_left path b'/')
  url (q ∷ query) =
      (c.addr ++ (codes "/v1/" ++ trim_left path b'/')) ++ (codes "?" ++ web.encode (q ∷ query))

  unfoldable pub read_response : Response → Done
  read_response r = elim r.body [
    | none ↦ not_read
    | some whole ↦
        let b = take body_limit whole in
        if ltb r.status 200 || ltb 299 r.status
        then vault_error (record { status = r.status; path = path; errors = web.decode_errors b })
        else elim b [
          | [] ↦ replied empty_response
          | x ∷ xs ↦ elim (web.decode (x ∷ xs)) [ none ↦ undecoded | some v ↦ replied v ]
        ]
  ]

  unfoldable pub request : Pairs → Option Bytes → Request
  request query body = record {
    method = method;
    url = url query;
    headers =
        header_if (codes "X-Vault-Token") c.token
          (header_if (codes "X-Vault-Namespace") c.namespace (content_type body));
    body = body;
  }

  unfoldable pub send_body : Pairs → Option Bytes → Done
  send_body query body =
      if web.accepts (url query)
      then elim (web.send (request query body)) [ none ↦ not_sent | some r ↦ read_response r ]
      else bad_request

  -- `do`; a request without a body has none as its last argument.
  unfoldable pub do_request : Pairs → Option Pairs → Done
  do_request query none = send_body query none
  do_request query (some body) = elim (web.marshal body) [
    | none ↦ not_marshalled
    | some text ↦ send_body query (some text)
  ]

-- `tokenValid`
unfoldable pub token_valid : Web → Client → Bool
token_valid web c =
    is_replied (do_request web c (codes "GET") (codes "auth/token/lookup-self") [] none)
