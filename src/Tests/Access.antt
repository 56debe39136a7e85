-- ===== src/Tests/Access.antt =====
-- Runs of the checks of patterns, policies and tokens.
use csi_secret_age.Prelude.{
  ◌+◌, Text, List, [], ◌∷◌, ◌≡◌, ◌≢◌, ◌↔◌, ◌⊎◌, refl, sym, ap, ◌∙◌, ==_iff, true, false, arith,
  codes, ◌==◌, if◌then◌else◌, none, some, ok, inl, inr, In, ltb,
}
use csi_secret_age.Prelude.Maps.{Map, lookup}
use csi_secret_age.Strings.{trim_suffix, has_suffix, has_prefix, count, trim_prefix}
use csi_secret_age.Paths.{segments, normalize_path, clean}
use csi_secret_age.Paths.Canonical.{segments-IsName}
use csi_secret_age.Permissions.{
  Policy, UserPermissions, match_permission, get_user_permissions, can_read, can_access, policy_key,
  match_prefix,
}
use csi_secret_age.Permissions.Patterns.{subtree, print, Covers, IsPattern, match_permission_iff}
use csi_secret_age.Permissions.Policies.{
  Decides, Granted, Listed, can_access_iff, can_read_iff, policy_key_injective,
}
use csi_secret_age.Auth.{
  Claim, text, flag, texts, Authenticator, validate_jwt, UserInfoCache, cache_get, cache_put,
  check_token, check_claims, audience_matches, email_verified, looks_like_jwt,
}
use csi_secret_age.Auth.Requests.{AuthConfig, granted, with_auth, request_access}
use csi_secret_age.Auth.Tokens.{IsAccepted, validate_jwt-IsAccepted, cache_get-cache_put}
use csi_secret_age.Auth.Identities.{LetIn, with_auth-LetIn}
use csi_secret_age.Load.{Decoders, load}
use csi_secret_age.Load.Reload.{NoAdmins, load-stale_admins}

climbs_out : match_permission (codes "/app/*") (codes "/app/../admin") ≡ false
unfolding match_permission has_suffix normalize_path match_prefix trim_suffix clean
climbs_out = refl

stays_inside : match_permission (codes "app/*") (codes "app/x/../key") ≡ true
unfolding match_permission has_suffix normalize_path match_prefix trim_suffix clean
stays_inside = refl

sibling : match_permission (codes "/app/*") (codes "/application/key") ≡ false
unfolding match_permission has_suffix normalize_path match_prefix trim_suffix clean
sibling = refl

app_IsPattern : IsPattern (subtree (codes "app" ∷ []))
unfolding segments
app_IsPattern = segments-IsName (codes "/app")

match_permission_iff_example :
    (match_permission (print (subtree (codes "app" ∷ []))) (codes "/app/../admin") ≡ true)
    ↔ Covers (subtree (codes "app" ∷ [])) (segments (codes "/app/../admin"))
match_permission_iff_example =
    match_permission_iff (subtree (codes "app" ∷ [])) (codes "/app/../admin") app_IsPattern

abbrev policy : Policy
policy = record {
  permissions = (codes "bob", codes "/app/*" ∷ []) ∷ [];
  admins = codes "alice" ∷ [];
  namespace_permissions =
      (codes "app/web", codes "/db/*" ∷ []) ∷ (codes "app", codes "/*" ∷ []) ∷ [];
}

can_access_iff_example :
    (can_access policy (codes "app") (codes "web") (codes "/tls/key") ≡ true) ↔ (
      (patterns : List Text) × Decides policy (codes "app") (codes "web") patterns
      × Granted patterns (codes "/tls/key"))
can_access_iff_example = can_access_iff policy (codes "app") (codes "web") (codes "/tls/key")

can_read_iff_example :
    (can_read (get_user_permissions policy (codes "bob")) (codes "/app/key") ≡ true)
    ↔ (In (codes "bob") policy.admins ⊎ Listed policy (codes "bob") (codes "/app/key"))
can_read_iff_example = can_read_iff policy (codes "bob") (codes "/app/key")

policy_key_injective_example :
    (policy_key (codes "a") (codes "b") ≡ policy_key (codes "a") (codes "c")
      → (codes "a" ≡ codes "a") × (codes "b" ≡ codes "c"))
    × (policy_key (codes "a") (codes "b") ≢ codes "a")
policy_key_injective_example =
    policy_key_injective (codes "a") (codes "a") (codes "b") (codes "c") (ground arith, tt)
      (ground arith, tt) (ground arith, tt) (ground arith, tt)

abbrev claims : Map Claim
claims =
    (codes "email", text (codes "bob"))
    ∷ (codes "email_verified", flag true)
    ∷ (codes "aud", texts (codes "other" ∷ codes "vault" ∷ []))
    ∷ []

abbrev authenticator : Authenticator
authenticator = record {
  user_claim = codes "email";
  audience = codes "vault";
  issuer = [];
  parse = some (λ raw. ok (record { valid = true; claims = some claims }));
  user_info = none;
  hash = λ raw. raw;
}

jwt_run : validate_jwt authenticator (codes "h.p.s") ≡ ok (codes "bob")
unfolding validate_jwt check_token check_claims ◌==◌ audience_matches lookup email_verified
jwt_run = refl

validate_jwt-IsAccepted_example : IsAccepted authenticator (codes "h.p.s") (codes "bob")
validate_jwt-IsAccepted_example =
    validate_jwt-IsAccepted authenticator (codes "h.p.s") (codes "bob") jwt_run

abbrev cache : UserInfoCache
cache = record { ttl = 10; entries = [] }

cache_get-cache_put_example :
    (cache_get 13 (codes "k") (cache_put 5 (codes "k") (codes "bob") cache)).0 ≡ (
      if codes "k" == codes "k"
      then (if ltb (5 + 10) 13 then none else some (codes "bob"))
      else (cache_get 13 (codes "k") cache).0)
cache_get-cache_put_example = cache_get-cache_put 5 13 (codes "k") (codes "k") (codes "bob") cache

abbrev settings : AuthConfig
settings = record {
  user_header = codes "X-User";
  admin_header = codes "X-Role";
  admin_value = codes "admin";
  allow_unauthenticated = false;
}

abbrev headers : Text → Text
headers name =
    if name == codes "Authorization"
    then codes "Bearer h.p.s"
    else if name == codes "X-Role"
    then codes "admin"
    else []

abbrev bob : UserPermissions
bob = record { username = codes "bob"; is_admin = false; patterns = codes "/app/*" ∷ [] }

auth_run :
    (with_auth settings (some (authenticator, policy)) headers 0 0 cache).0 ≡ granted (some bob)
unfolding with_auth request_access has_prefix ◌==◌ looks_like_jwt count trim_prefix validate_jwt
    check_token check_claims audience_matches lookup email_verified get_user_permissions
auth_run = refl

with_auth-LetIn_example : LetIn settings headers 0 0 cache (some (authenticator, policy)) (some bob)
with_auth-LetIn_example =
    with_auth-LetIn settings (some (authenticator, policy)) headers 0 0 cache (some bob) auth_run

-- A node of the file is a list of texts, and nothing else.
abbrev lists : Decoders (List Text)
lists = record {
  strings = λ node old. (node, true);
  nodes = λ node. none;
  policies = λ node old. ([], true);
}

abbrev file : Map (List Text)
file = (codes "namespace_permissions", []) ∷ []

file-NoAdmins : NoAdmins lists file
unfolding ◌==◌
file-NoAdmins key node (inl e) h =
    let same : key ≡ codes "namespace_permissions" = ap (λ (b : Text × List Text). b.0) e in
    let clash : (codes "namespace_permissions" == codes "admin_users") ≡ true =
      (==_iff (codes "namespace_permissions") (codes "admin_users")).1 (sym same ∙ h) in
    cc
file-NoAdmins key node (inr i) h = elim i [ ]

load-stale_admins_example : (load lists (some (some file)) policy).0.admins ≡ codes "alice" ∷ []
load-stale_admins_example = load-stale_admins lists file policy file-NoAdmins
