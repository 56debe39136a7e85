-- ===== src/Permissions.antt =====
-- The permission checks of permissions.go: path patterns, the permissions of a user, and the
-- namespace policies of pods. Loading, tokens and keys are in Load and Auth.
pub mod Below
pub mod Patterns
pub mod Policies
use csi_secret_age.Prelude.{
  Text, List, [], ◌∷◌, ◌++◌, Bool, true, false, any, codes, ◌==◌, if◌then◌else◌, Option, none, some,
}
use csi_secret_age.Prelude.Maps.{Map, lookup}
use csi_secret_age.Strings.{has_prefix, has_suffix, trim_suffix}
use csi_secret_age.Paths.{slash, clean, normalize_path}

-- The fields of `PermissionManager` that its mutex guards.
pub record Policy : Type 0 where
  pub permissions : Map (List Text)
  pub admins : List Text
  pub namespace_permissions : Map (List Text)

pub record UserPermissions : Type 0 where
  pub username : Text
  pub is_admin : Bool
  pub patterns : List Text

abbrev pub wildcard : Text
wildcard = codes "/*"

-- The branch of a pattern that ends in "/*", on the cleaned path.
unfoldable pub match_prefix : Text → Text → Bool
match_prefix prefix vault_path =
    if prefix == []
    then true
    else if vault_path == prefix
    then true
    else has_prefix vault_path
        (if has_suffix prefix (codes "/") then prefix else prefix ++ codes "/")

unfoldable pub match_permission : Text → Text → Bool
match_permission pattern vault_path =
    let pat = normalize_path pattern in
    let p = clean (normalize_path vault_path) in
    if has_suffix pat wildcard then match_prefix (trim_suffix pat wildcard) p else pat == p

-- The loop over patterns that all three checks share.
unfoldable pub match_any : List Text → Text → Bool
match_any patterns vault_path = any (λ pattern. match_permission pattern vault_path) patterns

unfoldable pub can_read : UserPermissions → Text → Bool
can_read up vault_path = if up.is_admin then true else match_any up.patterns vault_path

unfoldable pub can_write : UserPermissions → Text → Bool
can_write up vault_path = can_read up vault_path

unfoldable pub can_export : UserPermissions → Bool
can_export up = up.is_admin

abbrev pub patterns_or_none : Option (List Text) → List Text
patterns_or_none none = []
patterns_or_none (some patterns) = patterns

unfoldable pub get_user_permissions : Policy → Text → UserPermissions
get_user_permissions pol name = record {
  username = name;
  is_admin = any (λ admin. admin == name) pol.admins;
  patterns = patterns_or_none (lookup name pol.permissions);
}

abbrev pub policy_key : Text → Text → Text
policy_key namespace sa = namespace ++ slash ∷ sa

unfoldable pub namespace_access : Policy → Text → Text → Bool
namespace_access pol namespace vault_path = elim (lookup namespace pol.namespace_permissions) [
  | some patterns ↦ match_any patterns vault_path
  | none ↦ false
]

-- `CanAccess` of a manager that is there.
unfoldable pub can_access : Policy → Text → Text → Text → Bool
can_access pol namespace sa vault_path =
    elim (lookup (policy_key namespace sa) pol.namespace_permissions) [
      | some patterns ↦ match_any patterns vault_path
      | none ↦ namespace_access pol namespace vault_path
    ]

-- `CanAccess` on a pointer that may be nil.
unfoldable pub manager_can_access : Option Policy → Text → Text → Text → Bool
manager_can_access none namespace sa vault_path = false
manager_can_access (some pol) namespace sa vault_path = can_access pol namespace sa vault_path
