-- ===== src/Manager.antt =====
-- The permission manager of permissions.go as it is made: `NewPermissionManagerWithJWTConfig` and
-- `EnableUserInfoAuth`. Files, yaml, the JWT library and the OIDC provider are parameters.
pub mod Configured
use csi_secret_age.Prelude.{
  ℕ, Text, List, [], ◌∷◌, Bool, true, false, not, ◌&&◌, codes, ◌==◌, if◌then◌else◌, Option, none,
  some, Result, ok, err, ◌>>=◌,
}
use csi_secret_age.Prelude.Maps.{Map}
use csi_secret_age.Permissions.{Policy}
use csi_secret_age.Load.{LoadError, Decoders, Loaded, load}
use csi_secret_age.Auth.{Claim, Duration, UserInfoCache, new_user_info_cache}
use csi_secret_age.Keys.{KeyLibrary, KeyError, JwtKeyConfig, Keyfunc, build_jwt_keyfunc}

-- The provider's UserInfo endpoint with `Claims`.
abbrev pub UserInfo : Type 0
UserInfo = Text → Result Text (Map Claim)

-- The cache is not used before a provider is set.
pub record PermissionManager : Type 0 where
  pub keyfunc : Option Keyfunc
  pub user_claim : Text
  pub audience : Text
  pub issuer : Text
  pub oidc_provider : Option UserInfo
  pub user_info_cache : UserInfoCache
  pub policy : Policy

pub data ManagerError : Type 0 where
  path_required : ManagerError
  bad_keys : KeyError → ManagerError
  audience_required : ManagerError
  load_failed : LoadError → ManagerError

abbrev pub empty_policy : Policy
empty_policy = record { permissions = []; admins = []; namespace_permissions = [] }

abbrev pub no_cache : UserInfoCache
no_cache = record { ttl = 0; entries = [] }

abbrev pub lift_keys : Result KeyError (Option Keyfunc) → Result ManagerError (Option Keyfunc)
lift_keys (ok keyfunc) = ok keyfunc
lift_keys (err e) = err (bad_keys e)

abbrev pub loaded_manager :
    JwtKeyConfig → Text → Option Keyfunc → Loaded → Result ManagerError PermissionManager
loaded_manager cfg user_claim keyfunc (policy, some e) = err (load_failed e)
loaded_manager cfg user_claim keyfunc (policy, none) = ok (record {
  keyfunc = keyfunc;
  user_claim = if user_claim == [] then codes "sub" else user_claim;
  audience = cfg.audience;
  issuer = cfg.issuer;
  oidc_provider = none;
  user_info_cache = no_cache;
  policy = policy;
})

abbrev pub check_audience : JwtKeyConfig → Result ManagerError (Unit {0})
check_audience cfg =
    if not (cfg.jwks_url == []) && cfg.audience == [] then err audience_required else ok tt

-- `NewPermissionManagerWithJWTConfig`; `file` is what reading and parsing the file gives.
unfoldable pub new_permission_manager :
    {Node : Type 0}
    → KeyLibrary
    → Decoders Node
    → (Text → Option (Option (Map Node)))
    → Text
    → JwtKeyConfig
    → Text
    → Result ManagerError PermissionManager
new_permission_manager lib yaml file config_path cfg user_claim =
    if config_path == [] then err path_required else (do
      keyfunc ← lift_keys (build_jwt_keyfunc lib cfg)
      checked ← check_audience cfg
      loaded_manager cfg user_claim keyfunc (load yaml (file config_path) empty_policy))

unfoldable pub enable_user_info : UserInfo → Duration → PermissionManager → PermissionManager
enable_user_info provider ttl pm = record pm {
  oidc_provider = some provider;
  user_info_cache = new_user_info_cache ttl;
}
