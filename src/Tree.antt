-- ===== src/Tree.antt =====
-- The tree of secrets (VaultNode and VaultTree of vault.go), its path conflicts (ui.go), and the
-- changes that the update and delete forms make to it. The proofs are in the children.
pub mod Keys
pub mod Conflicts
pub mod Consistent
pub mod Settled
use csi_secret_age.Prelude.{
  Text, List, [], ◌∷◌, ◌++◌, Bool, true, false, not, ◌&&◌, codes, ◌==◌, if◌then◌else◌, Option, none,
  some, Result, ok, err,
}
use csi_secret_age.Prelude.Maps.{Map, lookup, insert, remove}
use csi_secret_age.Strings.{has_prefix}
use csi_secret_age.Paths.{normalize_path}

pub record VaultNode : Type 0 where
  pub value : Text
  pub is_folder : Bool

-- `nodes` is `none` for a nil map.
pub record VaultTree : Type 0 where
  pub nodes : Option (Map VaultNode)

abbrev pub entries_or_none : Option (Map VaultNode) → Map VaultNode
entries_or_none none = []
entries_or_none (some m) = m

-- Reading a nil map, or ranging over it, is like an empty one.
abbrev pub entries : VaultTree → Map VaultNode
entries t = entries_or_none t.nodes

abbrev pub new_tree : VaultTree
new_tree = record { nodes = some [] }

-- One round of the loop of `normalizeKeys`, at the normalised key.
unfoldable pub keep_node : Text → VaultNode → Map VaultNode → Map VaultNode
keep_node key node normalized = elim (lookup key normalized) [
  | none ↦ insert key node normalized
  | some existing ↦ if existing.is_folder then normalized else insert key node normalized
]

unfoldable pub normalize_entries : Map VaultNode → Map VaultNode → Map VaultNode
unfolding keep_node
normalize_entries [] normalized = normalized
normalize_entries ((k, v) ∷ m) normalized =
    normalize_entries m (keep_node (normalize_path k) v normalized)

unfoldable pub normalize_keys : VaultTree → VaultTree
unfolding normalize_entries
normalize_keys t = elim t.nodes [
  | none ↦ t
  | some m ↦ record { nodes = some (normalize_entries m []) }
]

-- The path with the slash that its children begin with.
unfoldable pub child_prefix : Text → Text
child_prefix p = if p == codes "/" then p else p ++ codes "/"

pub data Conflict : Type 0 where
  exists_as_folder : Conflict
  exists_as_secret : Conflict
  has_children : Text → Conflict
  under_secret : Text → Conflict

unfoldable pub kind_conflict : Option VaultNode → Bool → Option Conflict
kind_conflict none is_folder = none
kind_conflict (some existing) true = if existing.is_folder then none else some exists_as_secret
kind_conflict (some existing) false = if existing.is_folder then some exists_as_folder else none

unfoldable pub child_conflict : Text → Map VaultNode → Option Conflict
unfolding child_prefix
child_conflict new_path [] = none
child_conflict new_path ((k, v) ∷ m) =
    if not (k == new_path) && has_prefix k (child_prefix new_path)
    then some (has_children k)
    else child_conflict new_path m

unfoldable pub parent_conflict : Text → Map VaultNode → Option Conflict
unfolding child_prefix
parent_conflict new_path [] = none
parent_conflict new_path ((k, v) ∷ m) =
    if not (k == new_path) && not v.is_folder && has_prefix new_path (child_prefix k)
    then some (under_secret k)
    else parent_conflict new_path m

abbrev pub first_of_two : Option Conflict → Option Conflict → Option Conflict
first_of_two none later = later
first_of_two (some c) later = some c

-- Which of several conflicts is named depends on the order of the map; whether there is one does not.
unfoldable pub check_path_conflict : VaultTree → Text → Bool → Option Conflict
unfolding kind_conflict child_conflict parent_conflict
check_path_conflict t new_path is_folder =
    let p = normalize_path new_path in
    let m = entries t in
    first_of_two (kind_conflict (lookup p m) is_folder)
      (first_of_two (if is_folder then none else child_conflict p m) (parent_conflict p m))

-- The function that the update form hands to `UpdateVault`.
unfoldable pub put_node : Text → Bool → Text → VaultTree → Result Conflict VaultTree
unfolding check_path_conflict
put_node path is_folder value t =
    elim (check_path_conflict (record { nodes = some (entries t) }) path is_folder) [
      | some conflict ↦ err conflict
      | none ↦ ok (record {
        nodes = some (insert path (record { value = value; is_folder = is_folder }) (entries t));
      })
    ]

-- The function that the delete form hands to `UpdateVault`.
unfoldable pub delete_node : Text → VaultTree → VaultTree
delete_node path t = elim t.nodes [ none ↦ t | some m ↦ record { nodes = some (remove path m) } ]
