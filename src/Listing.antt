-- ===== src/Listing.antt =====
-- The children of a folder that the page of ui.go shows: the loop over the tree in
-- `buildTreeState`. The sort by name after it only orders them.
pub mod Visible
pub mod Complete
pub mod Shape
use csi_secret_age.Prelude.{
  Text, List, [], ◌∷◌, ◌++◌, Bool, true, false, not, ◌||◌, any, codes, ◌==◌, if◌then◌else◌, Option,
  none, some,
}
use csi_secret_age.Prelude.Maps.{Map}
use csi_secret_age.Strings.{has_prefix, trim_prefix, split_first}
use csi_secret_age.Paths.{slash, join_path}
use csi_secret_age.Permissions.{UserPermissions, can_read}
use csi_secret_age.Tree.{VaultNode}

pub record UiSecret : Type 0 where
  pub path : Text
  pub name : Text

-- `folders` is the key set of `folderSet`.
pub record Children : Type 0 where
  pub secrets : List UiSecret
  pub folders : List Text

-- What one node adds.
pub data Shown : Type 0 where
  secret : UiSecret → Shown
  folder : Text → Shown

abbrev pub no_children : Children
no_children = record { secrets = []; folders = [] }

-- No permissions in the context means that there is no authentication.
abbrev pub may_read : Option UserPermissions → Text → Bool
may_read none path = true
may_read (some up) path = can_read up path

abbrev pub is_top : Text → Bool
is_top current = current == codes "/" || current == []

abbrev pub child_prefix_of : Text → Text
child_prefix_of current = if is_top current then current else current ++ codes "/"

abbrev pub folder_path : Text → Text → Text
folder_path current name = if is_top current then slash ∷ name else join_path current name

abbrev pub show_child : Text → Text → Bool → Text × Option Text → Shown
show_child current path false (name, none) = secret (record { path = path; name = name })
show_child current path is_folder (name, rest) = folder (folder_path current name)

-- One round of the loop.
unfoldable pub show_node : Option UserPermissions → Text → Text → VaultNode → Option Shown
show_node up current path node =
    let remaining = trim_prefix path (child_prefix_of current) in
    if path == current
    then none
    else if not (has_prefix path (child_prefix_of current))
    then none
    else if not (may_read up path)
    then none
    else if remaining == []
    then none
    else some (show_child current path node.is_folder (split_first slash remaining))

abbrev pub add_shown : Option Shown → Children → Children
add_shown none c = c
add_shown (some (secret s)) c = record c { secrets = s ∷ c.secrets }
add_shown (some (folder f)) c =
    if any (λ g. g == f) c.folders then c else record c { folders = f ∷ c.folders }

unfoldable pub list_children : Option UserPermissions → Text → Map VaultNode → Children
list_children up current [] = no_children
list_children up current ((path, node) ∷ m) =
    let rest = list_children up current m in add_shown (show_node up current path node) rest
