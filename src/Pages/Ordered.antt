-- ===== src/Pages/Ordered.antt =====
-- The page of a folder: what it lists, and in which order.
use csi_secret_age.Prelude.{Text, [], ◌∷◌, ◌≡◌, ◌≢◌, sym, ◌∙◌, ◌↔◌, Option, In}
use csi_secret_age.Prelude.Maps.{Map}
use csi_secret_age.Paths.{slash, base, normalize_path}
use csi_secret_age.Paths.Normal.{normalize_path-IsNormal}
use csi_secret_age.Permissions.{UserPermissions}
use csi_secret_age.Tree.{VaultNode, VaultTree, entries}
use csi_secret_age.Listing.{UiSecret, secret, folder, list_children}
use csi_secret_age.Listing.Shape.{Shows, Shows-of_ShowsNode, ShowsNode-of_Shows}
use csi_secret_age.Listing.Visible.{ShowsNode-shown, list_children-AllShown}
use csi_secret_age.Listing.Complete.{list_children-Listed}
use csi_secret_age.Pages.{
  UiState, UiFolder, to_folders, folder_name, secret_name, folder_state, build_tree_state,
}
use csi_secret_age.Pages.Sorting.{
  IsSorted, sort_by-In, sort_by_keeps, sort_by-IsSorted, ListsFolder, to_folders-In,
  to_folders-named, to_folders_keeps,
}

-- The page of the folder `current` lists what the nodes of the map make of it, in order.
pub record IsPageOf (up : Option UserPermissions) (current : Text) (m : Map VaultNode)
    (st : UiState) : Type 0 where
  pub secrets_iff : (x : UiSecret) → In x st.entries ↔ Shows up current m (secret x)
  pub folders_iff : (p : Text) → ListsFolder p st.folders ↔ Shows up current m (folder p)
  pub named : (f : UiFolder) → In f st.folders → f.name ≡ base f.path
  pub secrets_sorted : IsSorted secret_name st.entries
  pub folders_sorted : IsSorted folder_name st.folders

module _ (up : Option UserPermissions) (t : VaultTree) where
  folder_state-IsPageOf :
      (current : Text) → current ≢ [] → IsPageOf up current (entries t) (folder_state up t current)
  unfolding folder_state
  folder_state-IsPageOf current given =
      let m = entries t in
      let children = list_children up current m in
      let all = list_children-AllShown up current m in
      record {
        secrets_iff = λ x. (
          λ i.
              Shows-of_ShowsNode current given up m (secret x)
                (all.secrets x (sort_by-In secret_name x children.secrets i)),
          λ made.
              let s = ShowsNode-of_Shows current given up m (secret x) made in
              sort_by_keeps secret_name x children.secrets (
                list_children-Listed up current m s.path s.node (secret x) s.held
                  (ShowsNode-shown up current s)),
        );
        folders_iff = λ p. (
          λ (f, i, same). Shows-of_ShowsNode current given up m (folder p) (
              rw same at (
                all.folders f.path (
                  to_folders-In f children.folders
                    (sort_by-In folder_name f (to_folders children.folders) i)))),
          λ made.
              let s = ShowsNode-of_Shows current given up m (folder p) made in
              let (f, i, same) = to_folders_keeps p children.folders (
                list_children-Listed up current m s.path s.node (folder p) s.held
                  (ShowsNode-shown up current s)) in
              (f, sort_by_keeps folder_name f (to_folders children.folders) i, same),
        );
        named = λ f i.
            to_folders-named f children.folders
              (sort_by-In folder_name f (to_folders children.folders) i);
        secrets_sorted = sort_by-IsSorted secret_name children.secrets;
        folders_sorted = sort_by-IsSorted folder_name (to_folders children.folders);
      }

  normalize_path-ne-nil : (path : Text) → normalize_path path ≢ []
  normalize_path-ne-nil path e =
      let n = normalize_path-IsNormal path in
      let rooted : slash ∷ n.rest ≡ [] = sym n.rooted ∙ e in cc

  -- The page of a folder lists exactly what the readable nodes of the tree below it make: a secret
  -- for each secret right below the folder, under its name, a folder for each folder right below it,
  -- and for each path that goes on the folder that its next element names. What lies below a folder
  -- is behind it and a slash. A folder is shown under the last element of its path, and both lists
  -- are sorted by name.
  pub build_tree_state-IsPageOf :
      (path : Text) → IsPageOf up (normalize_path path) (entries t) (build_tree_state t path [] up)
  unfolding build_tree_state normalize_path
  build_tree_state-IsPageOf path =
      folder_state-IsPageOf (normalize_path path) (normalize_path-ne-nil path)
