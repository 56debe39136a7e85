-- ===== src/Startup.antt =====
-- Start-up: `main` of main.go up to the servers. The environment, files, yaml, the JWT library,
-- OIDC discovery, the cloud key providers and the API are parameters.
pub mod Guards
pub mod Closed
pub mod Handling
use csi_secret_age.Prelude.{
  ℕ, ℤ, Text, List, [], ◌∷◌, Bool, true, false, not, ◌&&◌, codes, ◌==◌, if◌then◌else◌, Option, none,
  some, Result, ok, err, ◌>>=◌,
}
use csi_secret_age.Prelude.Maps.{Map}
use csi_secret_age.Permissions.{Policy}
use csi_secret_age.Load.{LoadError, Decoders, Loaded, load}
use csi_secret_age.Auth.{Claim, Token, Authenticator, Duration, UserInfoCache, new_user_info_cache}
use csi_secret_age.Auth.Requests.{AuthConfig}
use csi_secret_age.Manager.{
  UserInfo, PermissionManager, ManagerError, new_permission_manager, enable_user_info,
}
use csi_secret_age.Keys.{KeyLibrary, KeyError, JwtKeyConfig, Keyfunc, build_jwt_keyfunc}
use csi_secret_age.Config.{
  Resolver, ResolveError, resolve_secrets, resolve_key_provider, get_master_key,
}
use csi_secret_age.Config.Settings.{Config, resolvers, with_resolved, jwt_keys}
use csi_secret_age.Vault.{VaultManager, new_vault_manager}
use csi_secret_age.Vault.External.{SecretApi, Sealing}
use csi_secret_age.Csi.{ProviderServer}

pub data Level : Type 0 where
  debug info warn error : Level

pub data StartError : Type 0 where
  bad_environment : Text → StartError
  unresolved : ResolveError → StartError
  unknown_level : Text → StartError
  no_client : Text → StartError
  no_dev_key : Text → StartError
  unauthenticated : StartError
  empty_admin_value : StartError
  bad_permissions : ManagerError → StartError

abbrev pub resolved_config : Config → List Resolver × Option ResolveError → Result StartError Config
resolved_config cfg (rs, none) = ok (with_resolved cfg rs)
resolved_config cfg (rs, some e) = err (unresolved e)

-- The level of a name in upper case.
unfoldable pub slog_level : Text → Result StartError Level
slog_level name =
    if name == codes "DEBUG"
    then ok debug
    else if name == codes "INFO"
    then ok info
    else if name == codes "WARN"
    then ok warn
    else if name == codes "WARNING"
    then ok warn
    else if name == codes "ERROR"
    then ok error
    else err (unknown_level name)

-- What `main` calls and does not hold: files, `strings.ToUpper`, the in-cluster client, the key
-- generator, the registered cloud providers, the yaml file, the JWT library and OIDC discovery.
pub record Outside : Type 1 where
  pub Node : Type 0
  pub Cloud : Type 0
  pub read_file : Text → Result Text Text
  pub to_upper : Text → Text
  pub client : Result Text (Unit {0})
  pub generate_key : Result Text Text
  pub key_providers : Config → List (Option Cloud)
  pub call : Cloud → Result Text Text
  pub keys : KeyLibrary
  pub yaml : Decoders Node
  pub permissions_file : Text → Option (Option (Map Node))
  pub jwt_parse : Keyfunc → Text → Result Text Token
  pub discover : Text → Result Text UserInfo
  pub hash : Text → Text

pub record Server (Key : Type 0) : Type 0 where
  pub config : Config
  pub manager : VaultManager Key
  pub perm_mgr : Option PermissionManager

abbrev pub check_client : Bool → Result Text (Unit {0}) → Result StartError (Unit {0})
check_client true r = ok tt
check_client false (ok u) = ok tt
check_client false (err e) = err (no_client e)

abbrev pub with_dev_key : Config → Result Text Text → Result StartError Config
with_dev_key cfg (ok key) = ok (record cfg { master_key = key })
with_dev_key cfg (err e) = err (no_dev_key e)

-- A throwaway key in development, where none is configured.
unfoldable pub dev_key : Config → Result Text Text → Result StartError Config
dev_key cfg generated =
    if cfg.dev_mode
      && cfg.master_key == []
      && cfg.kms_ciphertext == []
      && cfg.gcp_kms_ciphertext == []
    then with_dev_key cfg generated
    else ok cfg

unfoldable pub check_guards : Config → Result StartError (Unit {0})
check_guards cfg =
    if cfg.perm_config_path == [] && not cfg.dev_mode
    then err unauthenticated
    else if not (cfg.jwt_admin_header == []) && cfg.jwt_admin_value == []
    then err empty_admin_value
    else ok tt

module _ (o : Outside) where
  -- A discovery that fails leaves the manager without UserInfo.
  abbrev pub with_discovered : Config → PermissionManager → Result Text UserInfo → PermissionManager
  with_discovered cfg pm (ok provider) = enable_user_info provider cfg.oauth_user_info_cache_ttl pm
  with_discovered cfg pm (err e) = pm

  abbrev pub with_user_info : Config → PermissionManager → PermissionManager
  with_user_info cfg pm =
      if cfg.jwt_issuer == [] then pm else with_discovered cfg pm (o.discover cfg.jwt_issuer)

  abbrev pub started_manager :
      Config → Result ManagerError PermissionManager → Result StartError (Option PermissionManager)
  started_manager cfg (ok pm) = ok (some (with_user_info cfg pm))
  started_manager cfg (err e) = err (bad_permissions e)

  unfoldable pub start_permissions : Config → Result StartError (Option PermissionManager)
  start_permissions cfg =
      if cfg.perm_config_path == []
      then ok none
      else started_manager cfg (
          new_permission_manager o.keys o.yaml o.permissions_file cfg.perm_config_path
            (jwt_keys cfg) cfg.jwt_user_claim)

  abbrev pub lift_environment : Result Text Config → Result StartError Config
  lift_environment (ok cfg) = ok cfg
  lift_environment (err e) = err (bad_environment e)

  module _ (s : Sealing) (api : SecretApi s.Cipher) where
    -- `main` up to the servers, from what the environment holds and the cluster.
    unfoldable pub start : Result Text Config → api.Cluster → Result StartError (Server s.Key)
    start environment c = do
      parsed ← lift_environment environment
      resolved ← resolved_config parsed (resolve_secrets o.read_file (resolvers parsed))
      level ← slog_level (o.to_upper resolved.log_level)
      client ← check_client resolved.dev_mode o.client
      cfg ← dev_key resolved o.generate_key
      guarded ← check_guards cfg
      perm_mgr ← start_permissions cfg
      ok (record {
        config = cfg;
        manager =
            new_vault_manager s api
              (some
                (get_master_key o.call (resolve_key_provider (o.key_providers cfg) cfg.master_key)))
              c;
        perm_mgr = perm_mgr;
      })

  -- What the middleware asks of the manager.
  abbrev pub authenticator : PermissionManager → Authenticator
  authenticator pm = record {
    user_claim = pm.user_claim;
    audience = pm.audience;
    issuer = pm.issuer;
    parse = elim pm.keyfunc [ none ↦ none | some keyfunc ↦ some (o.jwt_parse keyfunc) ];
    user_info = pm.oidc_provider;
    hash = o.hash;
  }

  abbrev pub auth_manager : Option PermissionManager → Option (Authenticator × Policy)
  auth_manager none = none
  auth_manager (some pm) = some (authenticator pm, pm.policy)

abbrev pub policy_of : Option PermissionManager → Option Policy
policy_of none = none
policy_of (some pm) = some pm.policy

abbrev pub provider_server : Config → Option PermissionManager → ProviderServer
provider_server cfg perm_mgr = record {
  perm_mgr = policy_of perm_mgr;
  allow_unauthenticated = cfg.dev_mode;
}
