-- ===== src/Auth.antt =====
-- Who a request of the Web UI comes from: `ValidateJWT` and `ValidateAccessToken` of
-- permissions.go with the cache of the latter; `withAuth` of ui.go is in Requests. The JWT library,
-- the OIDC provider, SHA-256 and the clock are parameters.
pub mod Tokens
pub mod Requests
pub mod Identities
use csi_secret_age.Prelude.{
  ℕ, zero, suc, ℤ, pos, negsuc, ◌+◌, ◌*◌, Text, List, [], ◌∷◌, Bool, true, false, not, ◌&&◌, ◌||◌,
  any, codes, ◌==◌, nat_eq, if◌then◌else◌, Option, none, some, Result, ok, err, ltb, ◌>>=◌,
}
use csi_secret_age.Prelude.Maps.{Map, lookup, insert, remove}
use csi_secret_age.Strings.{has_prefix, trim_prefix, trim_space, count}
use csi_secret_age.Permissions.{Policy, UserPermissions, get_user_permissions}

-- A claim as Go decodes it: `items` is a list of any values, `none` for one that is no string.
pub data Claim : Type 0 where
  text : Text → Claim
  flag : Bool → Claim
  texts : List Text → Claim
  items : List (Option Text) → Claim
  opaque : Claim

pub record Token : Type 0 where
  pub valid : Bool
  pub claims : Option (Map Claim)

pub data AuthError : Type 0 where
  not_configured : AuthError
  foreign : Text → AuthError
  invalid_token : AuthError
  invalid_claims : AuthError
  invalid_audience : AuthError
  invalid_issuer : AuthError
  claim_missing : AuthError
  email_not_verified : AuthError

-- The fields of `PermissionManager` that do not change, with what it calls: `parse` is `jwt.Parse`
-- with the key function, `user_info` the UserInfo endpoint with `Claims`; each is `none` where it
-- is not configured. `hash` is `tokenCacheKey`.
pub record Authenticator : Type 0 where
  pub user_claim : Text
  pub audience : Text
  pub issuer : Text
  pub parse : Option (Text → Result Text Token)
  pub user_info : Option (Text → Result Text (Map Claim))
  pub hash : Text → Text

unfoldable pub email_verified : Option Claim → Bool
email_verified (some (flag v)) = v
email_verified (some (text v)) = v == codes "true"
email_verified _ = false

abbrev pub item_is : Text → Option Text → Bool
item_is expected none = false
item_is expected (some s) = s == expected

abbrev pub audience_of : Text → Option Claim → Bool
audience_of expected (some (text v)) = v == expected
audience_of expected (some (texts v)) = any (λ s. s == expected) v
audience_of expected (some (items v)) = any (item_is expected) v
audience_of expected _ = false

unfoldable pub audience_matches : Map Claim → Text → Bool
audience_matches claims expected = audience_of expected (lookup (codes "aud") claims)

abbrev pub issuer_of : Text → Option Claim → Bool
issuer_of expected (some (text v)) = v == expected
issuer_of expected _ = false

unfoldable pub issuer_matches : Map Claim → Text → Bool
issuer_matches claims expected = issuer_of expected (lookup (codes "iss") claims)

-- `claims[key].(string)`, with "" where it is missing or no string.
abbrev pub text_of : Option Claim → Text
text_of (some (text v)) = v
text_of _ = []

abbrev pub email : Text
email = codes "email"

unfoldable pub check_claims : Authenticator → Map Claim → Result AuthError Text
check_claims a claims =
    let username = text_of (lookup a.user_claim claims) in
    if not (a.audience == []) && not (audience_matches claims a.audience)
    then err invalid_audience
    else if not (a.issuer == []) && not (issuer_matches claims a.issuer)
    then err invalid_issuer
    else if username == []
    then err claim_missing
    else if a.user_claim == email && not (email_verified (lookup (codes "email_verified") claims))
    then err email_not_verified
    else ok username

unfoldable pub check_token : Authenticator → Result Text Token → Result AuthError Text
check_token a (err e) = err (foreign e)
check_token a (ok token) =
    if not token.valid
    then err invalid_token
    else elim token.claims [ none ↦ err invalid_claims | some claims ↦ check_claims a claims ]

unfoldable pub validate_jwt : Authenticator → Text → Result AuthError Text
validate_jwt a token = elim a.parse [
  | none ↦ err not_configured
  | some parse ↦ check_token a (parse token)
]

-- Exactly three segments.
unfoldable pub looks_like_jwt : Text → Bool
looks_like_jwt token = nat_eq (count token b'.') 2

-- Durations and times in nanoseconds.
abbrev pub Duration : Type 0
Duration = ℤ

pub record UserInfoCacheEntry : Type 0 where
  pub username : Text
  pub expires : ℕ

pub record UserInfoCache : Type 0 where
  pub ttl : ℕ
  pub entries : Map UserInfoCacheEntry

abbrev pub default_ttl : ℕ
default_ttl = 5 * 60 * 1_000_000_000

abbrev pub new_user_info_cache : Duration → UserInfoCache
new_user_info_cache (pos zero) = record { ttl = default_ttl; entries = [] }
new_user_info_cache (pos (suc n)) = record { ttl = suc n; entries = [] }
new_user_info_cache (negsuc n) = record { ttl = default_ttl; entries = [] }

abbrev pub get_entry :
    ℕ → Text → Option UserInfoCacheEntry → UserInfoCache → Option Text × UserInfoCache
get_entry now key none c = (none, c)
get_entry now key (some entry) c =
    if ltb entry.expires now
    then (none, record c { entries = remove key c.entries })
    else (some entry.username, c)

-- An expired entry is deleted when it is asked for.
unfoldable pub cache_get : ℕ → Text → UserInfoCache → Option Text × UserInfoCache
cache_get now key c = get_entry now key (lookup key c.entries) c

unfoldable pub cache_put : ℕ → Text → Text → UserInfoCache → UserInfoCache
cache_put now key username c = record c {
  entries = insert key (record { username = username; expires = now + c.ttl }) c.entries;
}

-- The explicit refusals of the provider: absence is no opinion.
unfoldable pub email_refused : Option Claim → Bool
email_refused (some (flag v)) = not v
email_refused (some (text v)) = v == codes "false"
email_refused _ = false

unfoldable pub check_user_info : Authenticator → Result Text (Map Claim) → Result AuthError Text
check_user_info a (err e) = err (foreign e)
check_user_info a (ok claims) =
    let username = text_of (lookup a.user_claim claims) in
    if username == []
    then err claim_missing
    else if a.user_claim == email && email_refused (lookup (codes "email_verified") claims)
    then err email_not_verified
    else ok username

abbrev pub remember :
    ℕ → Text → Result AuthError Text → UserInfoCache → Result AuthError Text × UserInfoCache
remember now key (err e) c = (err e, c)
remember now key (ok username) c = (ok username, cache_put now key username c)

abbrev pub resolve_token :
    Authenticator
    → (Text → Result Text (Map Claim))
    → ℕ
    → Text
    → Text
    → Option Text × UserInfoCache
    → Result AuthError Text × UserInfoCache
resolve_token a user_info now key token (some username, c) = (ok username, c)
resolve_token a user_info now key token (none, c) =
    remember now key (check_user_info a (user_info token)) c

-- `ValidateAccessToken`; `now` and `later` are the clock at the lookup and at the insertion.
unfoldable pub validate_access_token :
    Authenticator → ℕ → ℕ → Text → UserInfoCache → Result AuthError Text × UserInfoCache
validate_access_token a now later token c = elim a.user_info [
  | none ↦ (err not_configured, c)
  | some user_info ↦
      resolve_token a user_info later (a.hash token) token (cache_get now (a.hash token) c)
]
