-- ===== src/Load.antt =====
-- `PermissionManager.Load` of permissions.go. yaml is a parameter: `raw` is the list of the
-- top-level entries in the order in which the `range` loop meets them, and a decoder tells what it
-- leaves in its destination, given what was there, and whether it succeeded.
pub mod Reload
use csi_secret_age.Prelude.{
  Text, List, [], ◌∷◌, Bool, true, false, codes, ◌==◌, if◌then◌else◌, Option, none, some, Result,
  ok, err,
}
use csi_secret_age.Prelude.Maps.{Map, insert}
use csi_secret_age.Permissions.{Policy}

pub data LoadError : Type 0 where
  cannot_read : LoadError
  cannot_parse : LoadError
  bad_admins : LoadError
  bad_user_permissions : LoadError
  bad_patterns : Text → LoadError
  bad_namespaces : LoadError
  unknown_key : Text → LoadError

pub record Decoders (Node : Type 0) : Type 0 where
  pub strings : Node → List Text → List Text × Bool
  pub nodes : Node → Option (Map Node)
  pub policies : Node → Map (List Text) → Map (List Text) × Bool

-- The manager after the step, and the error with which `Load` returns, if any.
abbrev pub Loaded : Type 0
Loaded = Policy × Option LoadError

-- The rest of the function runs only if the step did not return an error.
abbrev pub then_load : Loaded → (Policy → Loaded) → Loaded
then_load (next, none) rest = rest next
then_load (next, some e) rest = (next, some e)

module _ {Node : Type 0} (yaml : Decoders Node) where
  abbrev pub set_admins : Policy → List Text × Bool → Loaded
  set_admins pol (admins, true) = (record pol { admins = admins }, none)
  set_admins pol (admins, false) = (record pol { admins = admins }, some bad_admins)

  abbrev pub set_namespaces : Policy → Map (List Text) × Bool → Loaded
  set_namespaces pol (m, true) = (record pol { namespace_permissions = m }, none)
  set_namespaces pol (m, false) = (record pol { namespace_permissions = m }, some bad_namespaces)

  -- One user: the patterns are stored only if they decode.
  unfoldable pub load_user : Text → List Text × Bool → Policy → Loaded
  load_user user (patterns, true) pol =
      (record pol { permissions = insert user patterns pol.permissions }, none)
  load_user user (patterns, false) pol = (pol, some (bad_patterns user))

  unfoldable pub load_users : Map Node → Policy → Loaded
  unfolding load_user
  load_users [] pol = (pol, none)
  load_users ((user, node) ∷ users) pol =
      then_load (load_user user (yaml.strings node []) pol) (λ next. load_users users next)

  abbrev pub load_user_node : Option (Map Node) → Policy → Loaded
  load_user_node none pol = (pol, some bad_user_permissions)
  load_user_node (some users) pol = load_users users pol

  -- The switch on a top-level key.
  unfoldable pub load_entry : Text → Node → Policy → Loaded
  unfolding load_users
  load_entry key node pol =
      if key == codes "admin_users"
      then set_admins pol (yaml.strings node pol.admins)
      else if key == codes "user_permissions"
      then load_user_node (yaml.nodes node) pol
      else if key == codes "namespace_permissions"
      then set_namespaces pol (yaml.policies node pol.namespace_permissions)
      else (pol, some (unknown_key key))

  unfoldable pub load_entries : Map Node → Policy → Loaded
  load_entries [] pol = (pol, none)
  load_entries ((key, node) ∷ raw) pol =
      then_load (load_entry key node pol) (λ next. load_entries raw next)

  -- The two maps start anew; the admins do not.
  abbrev pub cleared : Policy → Policy
  cleared pol = record pol { permissions = []; namespace_permissions = [] }

  -- `Load`, given what reading and parsing the file gave.
  unfoldable pub load : Option (Option (Map Node)) → Policy → Loaded
  unfolding load_entries
  load none pol = (pol, some cannot_read)
  load (some none) pol = (pol, some cannot_parse)
  load (some (some raw)) pol = load_entries raw (cleared pol)
