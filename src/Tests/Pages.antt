-- ===== src/Tests/Pages.antt =====
-- Runs of the listing of a folder.
use csi_secret_age.Paths.{normalize_path, clean, join_path}
use csi_secret_age.Strings.{has_prefix, has_suffix, trim_suffix, trim_prefix, split_first}
use csi_secret_age.Prelude.{[], ◌∷◌, ◌≡◌, refl, false, codes, Option, some, ◌==◌}
use csi_secret_age.Prelude.Maps.{Map}
use csi_secret_age.Permissions.{
  UserPermissions, can_read, match_any, match_permission, match_prefix,
}
use csi_secret_age.Tree.{VaultNode}
use csi_secret_age.Listing.{secret, show_node, list_children}
use csi_secret_age.Pages.{build_tree_state}
use csi_secret_age.Pages.Ordered.{IsPageOf, build_tree_state-IsPageOf}

abbrev leaf : VaultNode
leaf = record { value = codes "v"; is_folder = false }

abbrev reader : Option UserPermissions
reader = some (record { username = codes "bob"; is_admin = false; patterns = codes "/app/*" ∷ [] })

abbrev nodes : Map VaultNode
nodes =
    (codes "/app/key", leaf)
    ∷ (codes "/app/db/x", leaf)
    ∷ (codes "/app/db/y", leaf)
    ∷ (codes "/other/z", leaf)
    ∷ []

shown_key :
    show_node reader (codes "/app") (codes "/app/key") leaf
    ≡ some (secret (record { path = codes "/app/key"; name = codes "key" }))
unfolding show_node ◌==◌ has_prefix can_read match_any match_permission has_suffix normalize_path
    match_prefix trim_suffix clean trim_prefix split_first
shown_key = refl

app_page : list_children reader (codes "/app") nodes ≡ record {
  secrets = record { path = codes "/app/key"; name = codes "key" } ∷ [];
  folders = codes "/app/db" ∷ [];
}
unfolding list_children show_node ◌==◌ has_prefix can_read match_any match_permission has_suffix
    normalize_path match_prefix trim_suffix clean trim_prefix split_first join_path
app_page = refl

top_page :
    list_children reader (codes "/") nodes ≡ record { secrets = []; folders = codes "/app" ∷ [] }
unfolding list_children show_node ◌==◌ has_prefix can_read match_any match_permission has_suffix
    normalize_path match_prefix trim_suffix clean trim_prefix split_first
top_page = refl

build_tree_state-IsPageOf_example :
    IsPageOf reader
      (normalize_path (codes "/app"))
      nodes
      (build_tree_state (record { nodes = some nodes }) (codes "/app") [] reader)
build_tree_state-IsPageOf_example =
    build_tree_state-IsPageOf reader (record { nodes = some nodes }) (codes "/app")
