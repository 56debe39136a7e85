-- ===== src/Auth/Requests.antt =====
-- The middleware of the Web UI: `withAuth` of ui.go.
use csi_secret_age.Prelude.{
  ℕ, Text, [], Bool, true, false, not, ◌&&◌, ◌||◌, codes, ◌==◌, if◌then◌else◌, Option, none, some,
  Result, ok, err,
}
use csi_secret_age.Strings.{has_prefix, trim_prefix, trim_space}
use csi_secret_age.Permissions.{Policy, UserPermissions, get_user_permissions}
use csi_secret_age.Auth.{
  AuthError, Authenticator, validate_jwt, looks_like_jwt, UserInfoCache, validate_access_token,
}

pub record AuthConfig : Type 0 where
  pub user_header : Text
  pub admin_header : Text
  pub admin_value : Text
  pub allow_unauthenticated : Bool

-- What `withAuth` does with a request: the handler runs, with the permissions in its context if
-- there are any, or the answer is 401.
pub data Access : Type 0 where
  granted : Option UserPermissions → Access
  unauthorized : Access

-- The header fallback; `header` is `r.Header.Get`.
unfoldable pub header_access : AuthConfig → Policy → (Text → Text) → Access
header_access cfg pol header =
    let username = trim_space (header cfg.user_header) in
    let up = get_user_permissions pol username in
    if cfg.user_header == [] || username == []
    then unauthorized
    else if not (cfg.admin_header == [])
        && not (cfg.admin_value == [])
        && header cfg.admin_header == cfg.admin_value
    then granted (some (record up { is_admin = true }))
    else granted (some up)

abbrev pub token_access :
    AuthConfig
    → Policy
    → (Text → Text)
    → Result AuthError Text × UserInfoCache
    → Access × UserInfoCache
token_access cfg pol header (ok username, c) =
    (granted (some (get_user_permissions pol username)), c)
token_access cfg pol header (err e, c) = (header_access cfg pol header, c)

unfoldable pub bearer_access :
    AuthConfig
    → Authenticator
    → Policy
    → (Text → Text)
    → ℕ
    → ℕ
    → Text
    → UserInfoCache
    → Access × UserInfoCache
bearer_access cfg a pol header now later token c =
    token_access cfg pol header (validate_access_token a now later token c)

abbrev pub jwt_access :
    Result AuthError Text → Policy → Access × UserInfoCache → UserInfoCache → Access × UserInfoCache
jwt_access (ok username) pol otherwise c = (granted (some (get_user_permissions pol username)), c)
jwt_access (err e) pol otherwise c = otherwise

abbrev pub jwt_configured : Authenticator → Bool
jwt_configured a = elim a.parse [ none ↦ false | some parse ↦ true ]

abbrev pub authorization : Text
authorization = codes "Authorization"

abbrev pub bearer : Text
bearer = codes "Bearer "

unfoldable pub request_access :
    AuthConfig
    → Authenticator
    → Policy
    → (Text → Text)
    → ℕ
    → ℕ
    → UserInfoCache
    → Access × UserInfoCache
request_access cfg a pol header now later c =
    let token = trim_prefix (header authorization) bearer in
    let by_token = bearer_access cfg a pol header now later token c in
    if has_prefix (header authorization) bearer
    then (if jwt_configured a && looks_like_jwt token
        then jwt_access (validate_jwt a token) pol by_token c
        else by_token)
    else (header_access cfg pol header, c)

-- `withAuth`, where the permission manager may be nil.
unfoldable pub with_auth :
    AuthConfig
    → Option (Authenticator × Policy)
    → (Text → Text)
    → ℕ
    → ℕ
    → UserInfoCache
    → Access × UserInfoCache
with_auth cfg none header now later c =
    (if cfg.allow_unauthenticated then granted none else unauthorized, c)
with_auth cfg (some (a, pol)) header now later c = request_access cfg a pol header now later c
