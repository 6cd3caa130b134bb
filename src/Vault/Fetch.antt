-- ===== src/Vault/Fetch.antt =====
-- `runFetch`, `existingVaultToken` and `saveVaultToken` of vault.go: from the flags to the files.
pub mod Existing
pub mod Granted
use vpnproxy.Base.{
  ℕ, Bool, true, false, not, ◌||◌, List, [], ◌∷◌, ◌++◌, Option, none, some, Bytes, codes,
  if◌then◌else◌, length, reverse,
}
use vpnproxy.Go.Text.{trim_space, trim_left}
use vpnproxy.Vault.{Files, Env, Field, Report, write_configs}
use vpnproxy.Vault.Kv.{MountInfo, Secret, secret, not_read, undecoded, no_secret, kv_read}
use vpnproxy.Vault.Client.{Client, VaultResponse, Done, replied, Web, do_request, token_valid}
use vpnproxy.Vault.Login.{LoginError, LoginResult, token, login_failed, Login, Event, oidc_login}

pub record FetchFlags : Type 0 where
  pub addr : Bytes
  pub namespace : Bytes
  pub dir : Bytes
  pub oidc_mount : Bytes
  pub oidc_role : Bytes
  pub oidc_port : ℕ
  pub args : List Bytes

-- What package flag makes of the arguments.
pub data Parsed : Type 0 where
  help bad_flags : Parsed
  parsed : FetchFlags → Parsed

pub data FetchExit : Type 0 where
  helped refused_flags no_address no_directory_given logging_in : FetchExit
  bad_count : ℕ → FetchExit
  not_logged_in : LoginError → FetchExit
  not_fetched : Secret (List Field) → FetchExit
  wrote : Files × Report → FetchExit

-- No token is saved; the file at the path is written, with its content; or its write fails, which may
-- leave anything there, and is logged.
pub data Saving : Type 0 where
  not_saved : Saving
  saved_at save_failed : Bytes → Bytes → Saving

-- What is done to the token file, and how the command ends.
pub record Fetched : Type 0 where
  pub saved : Saving
  pub exit : FetchExit

-- The system, the server and package json. `default_dir` is a path of the user's own, if the system
-- knows one, and `home` the home directory; `join` is `filepath.Join`, and `path` joins a directory and
-- name+".conf". `write_token` is the success of `os.WriteFile`. `events` are those of the login.
pub record FetchEnv : Type 0 where
  pub web : Web
  pub default_dir : Option Bytes
  pub env_token : Bytes
  pub home : Option Bytes
  pub join : Bytes → Bytes → Bytes
  pub read_file : Bytes → Option Bytes
  pub write_token : Bytes → Bytes → Bool
  pub listener : ℕ → Option ℕ
  pub nonce : Option Bytes
  pub decode_auth_url : Bytes → Option Bytes
  pub events : List Event
  pub as_mount : Bytes → Option MountInfo
  pub as_data : Bytes → Option (Option (List Field))
  pub as_data2 : Bytes → Option (Option (List Field))
  pub path : Bytes → Bytes → Bytes
  pub writes : ℕ → Env
  pub made : Bool
  pub files : Files

-- The token of a file, without the space round it.
abbrev pub file_token : Option Bytes → Bytes
file_token none = []
file_token (some content) = trim_space content

module _ (env : FetchEnv) where
  abbrev pub token_path : Option Bytes → Option Bytes
  token_path none = none
  token_path (some home) = some (env.join home (codes ".vault-token"))

  -- `vaultTokenFile`; `none` is its empty path.
  abbrev pub vault_token_file : Option Bytes
  vault_token_file = token_path env.home

  unfoldable pub existing_token_in : Bytes → Option Bytes → Bytes
  existing_token_in (c ∷ s) file = c ∷ s
  existing_token_in [] none = []
  existing_token_in [] (some path) = file_token (env.read_file path)

  -- `existingVaultToken`
  abbrev pub existing_token : Bytes
  existing_token = existing_token_in env.env_token vault_token_file

  -- `saveVaultToken`; a failure of the write is only logged.
  unfoldable pub save_token : Bytes → Option Bytes → Saving
  save_token tok none = not_saved
  save_token tok (some path) =
      if env.write_token path tok then saved_at path tok else save_failed path tok

  unfoldable pub out_dir : Bytes → Option Bytes
  out_dir [] = env.default_dir
  out_dir (c ∷ dir) = some (c ∷ dir)

  module _ (f : FetchFlags) where
    -- `strings.TrimRight(*addr, "/")`
    unfoldable pub client : Bytes → Client
    client tok = record {
      addr = reverse (trim_left (reverse f.addr) b'/');
      namespace = f.namespace;
      token = tok;
    }

    abbrev pub data_of : Done → Option Bytes
    data_of (replied v) = some v.reply
    data_of other = none

    -- `c.do` of a GET request.
    unfoldable pub get : Bytes → Bytes → Option Bytes
    get tok api_path = data_of (do_request env.web (client tok) (codes "GET") api_path [] none)

    abbrev pub login : Login
    login = record {
      mount = f.oidc_mount;
      role = f.oidc_role;
      listener = env.listener f.oidc_port;
      nonce = env.nonce;
      decode_auth_url = env.decode_auth_url;
    }

    abbrev pub read_with : Bytes → Bytes → Secret (List Field)
    read_with tok kv_path = kv_read (get tok) env.as_mount env.as_data env.as_data2 kv_path

    unfoldable pub write_secret : Bytes → Secret (List Field) → FetchExit
    write_secret dir (secret fields) =
        wrote (write_configs (env.path dir) env.writes fields env.made env.files)
    write_secret dir other = not_fetched other

    unfoldable pub after_login : Bytes → Bytes → Option LoginResult → Fetched
    after_login dir kv_path none = record { saved = not_saved; exit = logging_in }
    after_login dir kv_path (some (login_failed e)) = record {
      saved = not_saved;
      exit = not_logged_in e;
    }
    after_login dir kv_path (some (token t)) = record {
      saved = save_token t vault_token_file;
      exit = write_secret dir (read_with t kv_path);
    }

    abbrev pub logs_in : Bytes → Bool
    logs_in [] = true
    logs_in (c ∷ s) = not (token_valid env.web (client (c ∷ s)))

    unfoldable pub fetch_to : Bytes → Bytes → Fetched
    fetch_to kv_path dir =
        if logs_in existing_token
        then after_login dir kv_path (oidc_login env.web (client existing_token) login env.events)
        else record {
          saved = not_saved;
          exit = write_secret dir (read_with existing_token kv_path);
        }

    abbrev pub stop : FetchExit → Fetched
    stop why = record { saved = not_saved; exit = why }

    unfoldable pub fetch_in : Bytes → Option Bytes → Fetched
    fetch_in kv_path none = stop no_directory_given
    fetch_in kv_path (some dir) = fetch_to kv_path dir

    unfoldable pub fetch_from : Bytes → Bytes → Fetched
    fetch_from kv_path [] = stop no_address
    fetch_from kv_path (c ∷ addr) = fetch_in kv_path (out_dir f.dir)

    unfoldable pub fetch_args : List Bytes → Fetched
    fetch_args (kv_path ∷ []) = fetch_from kv_path f.addr
    fetch_args args = stop (bad_count (length args))

  unfoldable pub run_fetch : Parsed → Fetched
  run_fetch help = record { saved = not_saved; exit = helped }
  run_fetch bad_flags = record { saved = not_saved; exit = refused_flags }
  run_fetch (parsed f) = fetch_args f f.args

-- The systems on which the browser is opened in different ways.
pub data Goos : Type 0 where
  darwin windows other_system : Goos

-- `openBrowser`: the command that is started, with its arguments.
abbrev pub open_browser : Goos → Bytes → List Bytes
open_browser darwin u = codes "open" ∷ u ∷ []
open_browser windows u = codes "rundll32" ∷ codes "url.dll,FileProtocolHandler" ∷ u ∷ []
open_browser other_system u = codes "xdg-open" ∷ u ∷ []
