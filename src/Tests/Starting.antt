-- ===== src/Tests/Starting.antt =====
-- Runs of the start of the server.
use csi_secret_age.Base64.{decode_raw_url}
use csi_secret_age.Strings.{has_prefix, trim_space}
use csi_secret_age.Prelude.{
  ℕ, pos, ◌≡◌, ◌≢◌, refl, Text, List, [], ◌∷◌, true, false, codes, ◌==◌, if◌then◌else◌, none, some,
  ok, err,
}
use csi_secret_age.Prelude.Maps.{Map, lookup, insert}
use csi_secret_age.Csi.{server_can_access}
use csi_secret_age.Permissions.{can_access, get_user_permissions}
use csi_secret_age.Load.{Decoders, load, load_entries, load_entry}
use csi_secret_age.Auth.Requests.{granted, with_auth, request_access, header_access}
use csi_secret_age.Keys.{
  static_jwks, build_jwt_keyfunc, parse_jwks_keys, collect_keys, add_key,
  parse_rsa_public_key_from_jwk, set_bytes,
}
use csi_secret_age.Manager.{PermissionManager, new_permission_manager}
use csi_secret_age.Config.{
  resolve_secrets, resolve_secret_value, resolve_key_provider, get_master_key,
}
use csi_secret_age.Vault.{new_vault_manager}
use csi_secret_age.Config.Settings.{Config, auth_config}
use csi_secret_age.Startup.{
  Outside, Server, start, auth_manager, provider_server, slog_level, dev_key, check_guards,
  start_permissions,
}
use csi_secret_age.Base64.{decode_std}
use csi_secret_age.Providers.{Services, cloud_master_key, registered, gcp_provider, aws_provider}
use csi_secret_age.Providers.Fetched.{FetchedFrom, get_master_key-FetchedFrom}
use csi_secret_age.Startup.Guards.{Started, start-Started}
use csi_secret_age.Startup.Handling.{admin_handler}
use csi_secret_age.Startup.Closed.{KnownServed, start-admin_handler}
use csi_secret_age.Admin.{
  Request, at_root, Http, Answer, Live, frame_denial, serve, trust_origins, new_admin_handler,
}
use csi_secret_age.Tests.Fake.{Box, boxes, shelf, others}
use csi_secret_age.Tests.Vaults.{open_manager, before_save}
use csi_secret_age.Tests.Keying.{library, found_keys}

abbrev lists : Decoders (List Text)
lists = record {
  strings = λ node old. (node, true);
  nodes = λ node. none;
  policies = λ node old. ([], true);
}

abbrev permissions : Map (List Text)
permissions = (codes "admin_users", codes "alice" ∷ []) ∷ []

abbrev outside : Outside
outside = record {
  Node = List Text;
  Cloud = Text;
  read_file = λ path. err (codes "no such file");
  to_upper = λ s. s;
  client = ok tt;
  generate_key = err (codes "no entropy");
  key_providers = λ cfg. none ∷ [];
  call = λ name. err name;
  keys = library;
  yaml = lists;
  permissions_file = λ path. some (some permissions);
  jwt_parse = λ keyfunc raw. err raw;
  discover = λ issuer. err issuer;
  hash = λ token. token;
}

abbrev settings : Config
settings = record {
  master_key = codes "key";
  master_key_file = [];
  vault_secret_name = codes "csi-secret-age-backend";
  vault_namespace = codes "kube-system";
  socket_path = codes "/tmp/csi-secret-age.sock";
  http_port = pos 8090;
  dev_mode = false;
  log_level = codes "INFO";
  perm_config_path = codes "/etc/permissions.yaml";
  jwt_public_key = [];
  jwt_public_key_file = [];
  jwt_user_claim = [];
  jwt_audience = [];
  jwt_issuer = [];
  jwt_user_header = codes "X-User";
  jwt_admin_header = [];
  jwt_admin_value = [];
  jwt_jwks_url = [];
  jwt_jwks = codes "{}";
  jwt_jwks_file = [];
  jwt_jwks_refresh_interval = pos 0;
  oauth_user_info_cache_ttl = pos 0;
  csrf_trusted_origins = [];
  kms_ciphertext = [];
  kms_ciphertext_file = [];
  gcp_kms_key_name = [];
  gcp_kms_key_name_file = [];
  gcp_kms_ciphertext = [];
  gcp_kms_ciphertext_file = [];
}

abbrev made : PermissionManager
made = record {
  keyfunc = some (static_jwks found_keys);
  user_claim = codes "sub";
  audience = [];
  issuer = [];
  oidc_provider = none;
  user_info_cache = record { ttl = 0; entries = [] };
  policy = record { permissions = []; admins = codes "alice" ∷ []; namespace_permissions = [] };
}

abbrev server : Server ℕ
server = record { config = settings; manager = open_manager; perm_mgr = some made }

start_run : start outside boxes shelf (ok settings) before_save ≡ ok server
unfolding start ◌==◌ new_permission_manager resolve_secrets resolve_secret_value
    resolve_key_provider get_master_key slog_level dev_key check_guards start_permissions
    build_jwt_keyfunc parse_jwks_keys load load_entries load_entry new_vault_manager collect_keys
    add_key parse_rsa_public_key_from_jwk decode_raw_url insert lookup set_bytes
start_run = refl

start-Started_example : Started outside boxes shelf server
start-Started_example = start-Started outside boxes shelf (ok settings) before_save server start_run

abbrev headers : Text → Text
headers name = if name == codes "X-User" then codes "alice" else []

header_run :
    (with_auth
      (auth_config settings)
      (auth_manager outside (some made))
      headers
      0
      0
      (record { ttl = 0; entries = [] })).0
    ≡ granted (some (record { username = codes "alice"; is_admin = true; patterns = [] }))
unfolding with_auth request_access has_prefix ◌==◌ header_access trim_space get_user_permissions
    lookup
header_run = refl

-- Every request comes from the same site, and ServeMux sends it to the pages.
abbrev net_http : Http
net_http = record {
  Protection = Unit {0};
  new_protection = tt;
  add_trusted_origin = λ origin csrf. ok csrf;
  check = λ csrf req. true;
  mux = λ req. some at_root;
}

abbrev made_handler :
    ℕ → ℕ → Request → Live boxes shelf → List (Text × Text) × Answer Box × Live boxes shelf
made_handler =
    serve boxes shelf others net_http (auth_config settings) (auth_manager outside (some made)) tt

handler_run : admin_handler outside boxes shelf others net_http server made.policy ≡ ok made_handler
unfolding admin_handler new_admin_handler
handler_run = refl

start-admin_handler_example :
    ((namespace sa path : Text)
      → server_can_access (provider_server settings (some made)) namespace sa path
        ≡ can_access made.policy namespace sa path)
    × ((csrf : Unit {0}) × (trust_origins net_http [] tt ≡ ok csrf)
        × ((now later : ℕ) (req : Request) (l : Live boxes shelf)
            → (let r = made_handler now later req l in
                (r.0 ≡ frame_denial)
                × KnownServed outside boxes shelf others net_http settings
                    (some made)
                    csrf
                    now
                    later
                    req
                    l
                    r.1
                    r.2)))
start-admin_handler_example =
    start-admin_handler outside boxes shelf others net_http (ok settings) before_save server
      made.policy made_handler start_run refl handler_run

-- Google's service has no client, and Amazon's decrypts two bytes.
abbrev services : Services
services = record {
  GcpKms = Text;
  AwsKms = Text;
  new_gcp_kms = err (codes "no credentials");
  new_aws_kms = ok (codes "aws");
  gcp_decrypt = λ kms name ct. err (codes "denied");
  aws_decrypt = λ kms ct. ok (codes "AGE-KEY");
}

abbrev cloud_settings : Config
cloud_settings = record settings {
  kms_ciphertext = codes "QUI=";
  gcp_kms_ciphertext = codes "QUI=";
  gcp_kms_key_name = codes "k";
}

decode_run : decode_std (codes "QUI=") ≡ some (65 ∷ 66 ∷ [])
unfolding decode_std
decode_run = refl

fetch_run :
    get_master_key
      (cloud_master_key services)
      (resolve_key_provider (registered services cloud_settings) cloud_settings.master_key)
    ≡ ok (codes "AGE-KEY")
unfolding get_master_key cloud_master_key resolve_key_provider gcp_provider aws_provider decode_std
    ◌==◌
fetch_run = refl

get_master_key-FetchedFrom_example :
    FetchedFrom services cloud_settings (codes "AGE-KEY") × (codes "AGE-KEY" ≢ [])
get_master_key-FetchedFrom_example =
    get_master_key-FetchedFrom services cloud_settings (codes "AGE-KEY") fetch_run
