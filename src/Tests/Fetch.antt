-- ===== src/Tests/Fetch.antt =====
-- A fetch that logs in first, the requests of the client, and the page of an error (vault.go,
-- vault_test.go).
use vpnproxy.Base.{◌++◌, true, [], ◌∷◌, none, some, ◌≡◌, refl, codes}
use vpnproxy.Go.Text.{join_text, trim_left}
use vpnproxy.Go.Strconv.{itoa, digits}
use vpnproxy.Vault.{Files, Report, write_configs}
use vpnproxy.Vault.Client.{Web, message, error_text, read_response, request, send_body, do_request}
use vpnproxy.Vault.Login.{
  calls_back, receives, token_of, result_of, callback, wait_for_login, request_auth, oidc_login,
}
use vpnproxy.Vault.Fetch.{
  saved_at, not_saved, FetchFlags, parsed, no_address, FetchEnv, existing_token_in, save_token,
  out_dir, client, after_login, fetch_to, fetch_in, fetch_from, fetch_args, run_fetch,
}
use vpnproxy.Tests.Vault.{path, works, empty, fields}

-- A server that grants a token, and answers every request alike.
abbrev web : Web
web = record {
  marshal = λ p. some (codes "{}");
  encode = λ p. codes "q";
  accepts = λ u. true;
  send = λ r. some (record { status = 200; body = some (codes "x") });
  decode = λ b. some (record { reply = codes "d"; client_token = some (codes "t") });
  decode_errors = λ b. [];
}

abbrev env : FetchEnv
env = record {
  web = web;
  default_dir = some (codes "/home/.config/vpnproxy/wireguard");
  env_token = [];
  home = some (codes "/home");
  join = λ dir name. dir ++ (codes "/" ++ name);
  read_file = λ p. none;
  write_token = λ p t. true;
  listener = λ p. some p;
  nonce = some (codes "n");
  decode_auth_url = λ b. some (codes "u");
  events = calls_back (λ k. k) ∷ calls_back (λ k. []) ∷ receives ∷ [];
  as_mount = λ b. none;
  as_data = λ b. none;
  as_data2 = λ b. some (some fields);
  path = λ dir. path;
  writes = λ i. works;
  made = true;
  files = empty;
}

abbrev flags : FetchFlags
flags = record {
  addr = codes "https://v/";
  namespace = [];
  dir = [];
  oidc_mount = codes "oidc";
  oidc_role = [];
  oidc_port = 8250;
  args = codes "secret/vpnproxy" ∷ [];
}

abbrev done : Files × Report
done = write_configs path (λ i. works) fields true empty

saves : (run_fetch env (parsed flags)).saved ≡ saved_at (codes "/home/.vault-token") (codes "t")
unfolding run_fetch fetch_args fetch_from fetch_in out_dir fetch_to existing_token_in oidc_login
    request_auth do_request send_body read_response wait_for_login callback result_of token_of
    after_login save_token trim_left
saves = refl

no_address_given :
    run_fetch env (parsed (record flags { addr = [] }))
    ≡ record { saved = not_saved; exit = no_address }
unfolding run_fetch fetch_args fetch_from
no_address_given = refl

-- The default message, and the errors of the server.
denied :
    error_text
      (λ status. codes "Forbidden")
      (record { status = 403; path = codes "kv/x"; errors = [] })
    ≡ codes "vault kv/x: 403 Forbidden"
unfolding error_text message join_text itoa digits
denied = refl

two_errors :
    error_text
      (λ status. [])
      (record { status = 400; path = codes "p"; errors = codes "a" ∷ codes "b" ∷ [] })
    ≡ codes "vault p: 400 a; b"
unfolding error_text message join_text itoa digits
two_errors = refl

the_request :
    request web
      (client env flags (codes "s"))
      (codes "GET")
      (codes "/a/b")
      ((codes "k", codes "v") ∷ [])
      none
    ≡ record {
      method = codes "GET";
      url = codes "https://v/v1/a/b?q";
      headers = (codes "X-Vault-Token", codes "s") ∷ [];
      body = none;
    }
unfolding request client trim_left
the_request = refl
