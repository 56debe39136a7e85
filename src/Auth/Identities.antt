-- ===== src/Auth/Identities.antt =====
-- Whom `withAuth` lets through, and as whom.
use csi_secret_age.Prelude.{
  ℕ, Text, [], ◌≡◌, ◌≢◌, refl, ap, true, not, ◌&&◌, ◌||◌, arith, ◌==◌, ==_iff, Option, none, some,
  Result, ok, err, Bool-cases, inl, inr,
}
use csi_secret_age.Strings.{has_prefix, trim_prefix, trim_space}
use csi_secret_age.Permissions.{Policy, UserPermissions, get_user_permissions}
use csi_secret_age.Auth.{
  AuthError, Authenticator, validate_jwt, UserInfoCache, validate_access_token, looks_like_jwt,
}
use csi_secret_age.Auth.Requests.{
  AuthConfig, granted, header_access, token_access, bearer_access, jwt_access, jwt_configured,
  authorization, bearer, request_access, with_auth,
}

module _ (cfg : AuthConfig) (a : Authenticator) (pol : Policy) (header : Text → Text)
    (now later : ℕ) (c : UserInfoCache) where
  abbrev pub bearer_token : Text
  bearer_token = trim_prefix (header authorization) bearer

  abbrev pub header_name : Text
  header_name = trim_space (header cfg.user_header)

  -- The three ways in. Each gives the permissions that the permissions file has for the name, and
  -- only the admin header, with a value that is set and equal, makes more of them.
  pub data Identified : UserPermissions → Type 0 where
    by_jwt :
        {up : UserPermissions} (username : Text)
        → has_prefix (header authorization) bearer ≡ true
        → validate_jwt a bearer_token ≡ ok username
        → up ≡ get_user_permissions pol username
        → Identified up
    by_access_token :
        {up : UserPermissions} (username : Text)
        → has_prefix (header authorization) bearer ≡ true
        → (validate_access_token a now later bearer_token c).0 ≡ ok username
        → up ≡ get_user_permissions pol username
        → Identified up
    by_header :
        {up : UserPermissions}
        → cfg.user_header ≢ []
        → header_name ≢ []
        → up ≡ get_user_permissions pol header_name
        → Identified up
    by_admin_header :
        {up : UserPermissions}
        → cfg.user_header ≢ []
        → header_name ≢ []
        → cfg.admin_header ≢ []
        → cfg.admin_value ≢ []
        → header cfg.admin_header ≡ cfg.admin_value
        → up ≡ record (get_user_permissions pol header_name) { is_admin = true }
        → Identified up

  header_access-Identified :
      (up : UserPermissions) → header_access cfg pol header ≡ granted (some up) → Identified up
  unfolding header_access
  header_access-Identified up h = elim (Bool-cases (cfg.user_header == [] || header_name == [])) [
    | inl refused ↦ absurd (ground arith)
    | inr let_in ↦
        let has_header : cfg.user_header ≢ [] = ground (arith, ==_iff cfg.user_header []) in
        let has_name : header_name ≢ [] = ground (arith, ==_iff header_name []) in
        elim (Bool-cases (
          not (cfg.admin_header == [])
          && not (cfg.admin_value == [])
          && header cfg.admin_header == cfg.admin_value)) [
            | inl admin ↦
                by_admin_header has_header has_name (ground (arith, ==_iff cfg.admin_header []))
                  (ground (arith, ==_iff cfg.admin_value []))
                  (ground (arith, ==_iff (header cfg.admin_header) cfg.admin_value)) (ground arith)
            | inr plain ↦ by_header has_header has_name (ground arith)
          ]
  ]

  header_access-some : header_access cfg pol header ≢ granted none
  unfolding header_access
  header_access-some = ground arith

  bearer_access-Identified :
      (up : UserPermissions)
      → has_prefix (header authorization) bearer ≡ true
      → (bearer_access cfg a pol header now later bearer_token c).0 ≡ granted (some up)
      → Identified up
  unfolding bearer_access
  bearer_access-Identified up pre h = go (validate_access_token a now later bearer_token c) refl h
    where
      go :
          (r : Result AuthError Text × UserInfoCache)
          → validate_access_token a now later bearer_token c ≡ r
          → (token_access cfg pol header r).0 ≡ granted (some up)
          → Identified up
      go (ok username, d) e q =
          by_access_token username pre (ap (λ (p : Result AuthError Text × UserInfoCache). p.0) e)
            (ground arith)
      go (err x, d) e q = header_access-Identified up q

  jwt_access-Identified :
      (up : UserPermissions) (r : Result AuthError Text)
      → has_prefix (header authorization) bearer ≡ true
      → validate_jwt a bearer_token ≡ r
      → (jwt_access r pol (bearer_access cfg a pol header now later bearer_token c) c).0
        ≡ granted (some up)
      → Identified up
  jwt_access-Identified up (ok username) pre valid h = by_jwt username pre valid (ground arith)
  jwt_access-Identified up (err e) pre valid h = bearer_access-Identified up pre h

  request_access-Identified :
      (up : UserPermissions)
      → (request_access cfg a pol header now later c).0 ≡ granted (some up)
      → Identified up
  unfolding request_access
  request_access-Identified up h = elim (Bool-cases (has_prefix (header authorization) bearer)) [
    | inr absent ↦ header_access-Identified up (rw (absent, request_access) at h)
    | inl pre ↦ elim (Bool-cases (jwt_configured a && looks_like_jwt bearer_token)) [
      | inl jwt ↦ jwt_access-Identified up _ pre refl (rw (pre, request_access) at (rw jwt at h))
      | inr plain ↦ bearer_access-Identified up pre (rw (pre, request_access) at (rw plain at h))
    ]
  ]

  token_access-some :
      (r : Result AuthError Text × UserInfoCache) → (token_access cfg pol header r).0 ≢ granted none
  token_access-some (ok username, d) = ground arith
  token_access-some (err e, d) = header_access-some

  jwt_access-some :
      (r : Result AuthError Text)
      → (jwt_access r pol (bearer_access cfg a pol header now later bearer_token c) c).0
        ≢ granted none
  unfolding bearer_access
  jwt_access-some (ok username) = ground arith
  jwt_access-some (err e) = token_access-some _

  request_access-some : (request_access cfg a pol header now later c).0 ≢ granted none
  unfolding request_access bearer_access
  request_access-some h = elim (Bool-cases (has_prefix (header authorization) bearer)) [
    | inr absent ↦ header_access-some (rw (absent, request_access) at h)
    | inl pre ↦ elim (Bool-cases (jwt_configured a && looks_like_jwt bearer_token)) [
      | inl jwt ↦
          jwt_access-some (validate_jwt a bearer_token) (rw (pre, request_access) at (rw jwt at h))
      | inr plain ↦
          token_access-some (validate_access_token a now later bearer_token c)
            (rw (pre, request_access) at (rw plain at h))
    ]
  ]

-- What stands behind a handler that runs: with a permission manager, a user who is identified;
-- without one, the development switch, and then there is no user.
pub data LetIn (cfg : AuthConfig) (header : Text → Text) (now later : ℕ) (c : UserInfoCache)
    : Option (Authenticator × Policy) → Option UserPermissions → Type 0 where
  development : cfg.allow_unauthenticated ≡ true → LetIn cfg header now later c none none
  identified :
      (a : Authenticator) (pol : Policy) (up : UserPermissions)
      → Identified cfg a pol header now later c up
      → LetIn cfg header now later c (some (a, pol)) (some up)

-- A request that the middleware lets through has, where there is a permission manager, a user who
-- came by a valid JWT, an access token that the provider or the cache vouches for, or the
-- configured user header, and is administrator beyond the permissions file only by a configured
-- admin header of the configured value; where there is no manager, the switch that allows
-- unauthenticated access is on and no permissions are attached.
pub with_auth-LetIn :
    (cfg : AuthConfig) (mgr : Option (Authenticator × Policy)) (header : Text → Text)
    (now later : ℕ) (c : UserInfoCache) (found : Option UserPermissions)
    → (with_auth cfg mgr header now later c).0 ≡ granted found
    → LetIn cfg header now later c mgr found
unfolding with_auth
with_auth-LetIn cfg none header now later c none h = development (ground arith)
with_auth-LetIn cfg none header now later c (some up) h = absurd (ground arith)
with_auth-LetIn cfg (some (a, pol)) header now later c none h =
    absurd (request_access-some cfg a pol header now later c h)
with_auth-LetIn cfg (some (a, pol)) header now later c (some up) h =
    identified a pol up (request_access-Identified cfg a pol header now later c up h)
