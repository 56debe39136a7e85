-- ===== src/Tests/Serving.antt =====
-- Runs of the pages and of the admin UI as a whole.
use csi_secret_age.Strings.{trim, has_prefix, trim_space, has_suffix, trim_suffix}
use csi_secret_age.Paths.{normalize_path, dir, join_path, base, validate_vault_path, clean}
use csi_secret_age.Prelude.Maps.{lookup, insert}
use csi_secret_age.Vault.{loaded_key, load_and_decrypt, decrypt_tree, read_cipher, encrypt_tree}
use csi_secret_age.Prelude.{
  ℕ, ◌≡◌, refl, Text, List, [], ◌∷◌, true, false, codes, ◌==◌, if◌then◌else◌, none, some, ok,
}
use csi_secret_age.Permissions.{
  Policy, can_write, can_read, get_user_permissions, match_any, match_permission, match_prefix,
}
use csi_secret_age.Auth.{Authenticator}
use csi_secret_age.Auth.Requests.{AuthConfig, with_auth, request_access, header_access}
use csi_secret_age.Pages.{UiState, handle_entry, build_tree_state, breadcrumbs}
use csi_secret_age.Web.{redirect, handle_update, check_update}
use csi_secret_age.Admin.{
  Request, at_update, Http, reply, Live, frame_denial, serve, trust_origins, new_admin_handler,
  handle,
}
use csi_secret_age.Admin.Served.{Served, new_admin_handler-Served}
use csi_secret_age.Vault.Ending.{Ended, update_vault-Ended}
use csi_secret_age.Vault.Writing.{update_vault}
use csi_secret_age.Tree.{put_node, normalize_keys}
use csi_secret_age.Tests.Fake.{boxes, shelf, others}
use csi_secret_age.Tests.Vaults.{open_manager, before_save, after_save}
use csi_secret_age.Tests.Handlers.{update_form}

-- Every request comes from the same site, and ServeMux sends it to /update.
abbrev net_http : Http
net_http = record {
  Protection = List Text;
  new_protection = [];
  add_trusted_origin = λ origin origins. ok (origin ∷ origins);
  check = λ origins req. true;
  mux = λ req. some at_update;
}

abbrev settings : AuthConfig
settings = record {
  user_header = codes "X-User";
  admin_header = [];
  admin_value = [];
  allow_unauthenticated = false;
}

abbrev policy : Policy
policy = record {
  permissions = (codes "bob", codes "/app/*" ∷ []) ∷ [];
  admins = [];
  namespace_permissions = [];
}

abbrev authenticator : Authenticator
authenticator = record {
  user_claim = codes "sub";
  audience = [];
  issuer = [];
  parse = none;
  user_info = none;
  hash = λ token. token;
}

abbrev request : Request
request = record {
  method = codes "POST";
  url_path = codes "/update";
  path_query = [];
  form = update_form;
  header = λ name. if name == codes "X-User" then codes "bob" else [];
}

abbrev live : Live boxes shelf
live = record {
  manager = open_manager;
  cluster = before_save;
  cache = record { ttl = 10; entries = [] };
}

serve_run :
    serve boxes shelf others net_http settings (some (authenticator, policy)) [] 0 0 request live
    ≡ (frame_denial, reply (redirect (codes "/")), record live { cluster = after_save })
unfolding serve ◌==◌ update_vault put_node handle with_auth request_access header_access has_prefix
    trim_space has_suffix trim_suffix handle_update check_update validate_vault_path normalize_path
    clean can_write can_read get_user_permissions match_any match_permission match_prefix loaded_key
    read_cipher decrypt_tree encrypt_tree lookup insert
serve_run = refl

handler_run :
    new_admin_handler boxes shelf others net_http settings
      (some (authenticator, policy))
      (codes "https://ui.example" ∷ [])
    ≡ ok (
        serve boxes shelf others net_http settings
          (some (authenticator, policy))
          (codes "https://ui.example" ∷ []))
unfolding new_admin_handler trim_space
handler_run = refl

new_admin_handler-Served_example :
    (csrf : List Text) × (trust_origins net_http (codes "https://ui.example" ∷ []) [] ≡ ok csrf)
    × ((now later : ℕ) (req : Request) (l : Live boxes shelf)
        → (let r =
              serve boxes shelf others net_http settings
                (some (authenticator, policy))
                (codes "https://ui.example" ∷ [])
                now
                later
                req
                l in
            (r.0 ≡ frame_denial)
            × Served boxes shelf others net_http settings
                (some (authenticator, policy))
                csrf
                now
                later
                req
                l
                r.1
                r.2))
new_admin_handler-Served_example =
    new_admin_handler-Served boxes shelf others net_http settings (some (authenticator, policy))
      (codes "https://ui.example" ∷ [])
      (serve boxes shelf others net_http settings (some (authenticator, policy))
        (codes "https://ui.example" ∷ []))
      handler_run

update_vault-Ended_example :
    Ended boxes shelf others (put_node (codes "/app/key") false (codes "v")) 107 before_save (
      update_vault boxes shelf others open_manager
        (put_node (codes "/app/key") false (codes "v"))
        before_save)
unfolding loaded_key
update_vault-Ended_example =
    update_vault-Ended boxes shelf others (put_node (codes "/app/key") false (codes "v")) 107
      open_manager before_save refl

abbrev password_page : UiState
password_page = record {
  locked = false;
  error = none;
  is_entry_view = true;
  current_path = codes "/";
  current_name = [];
  parent_path = codes "/db";
  folders = [];
  entries = [];
  folder = none;
  breadcrumbs =
      record { name = codes "db"; path = codes "/db"; is_last = false }
      ∷ record { name = codes "password"; path = codes "/db/password"; is_last = true }
      ∷ [];
  entry_path = codes "/db/password";
  entry = record { path = codes "/db/password"; name = codes "password" };
}

entry_run :
    handle_entry boxes shelf open_manager none (codes "GET") (codes "/db/password") after_save
    ≡ some password_page
unfolding handle_entry ◌==◌ load_and_decrypt lookup decrypt_tree build_tree_state normalize_path dir
    breadcrumbs normalize_keys trim insert join_path base
entry_run = refl
