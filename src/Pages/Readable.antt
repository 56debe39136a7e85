-- ===== src/Pages/Readable.antt =====
-- What the pages of / and /entry show to whom.
use csi_secret_age.Prelude.{
  Text, [], ◌≡◌, ◌≢◌, refl, Bool, true, false, not, ◌&&◌, In, arith, codes, ◌==◌, ==_iff, Option,
  none, some, Result, ok, err, Bool-cases, inl, inr,
}
use csi_secret_age.Prelude.Maps.{Map, lookup}
use csi_secret_age.Paths.{normalize_path}
use csi_secret_age.Permissions.{UserPermissions}
use csi_secret_age.Tree.{VaultNode, VaultTree, entries}
use csi_secret_age.Listing.{UiSecret, secret, folder, may_read, show_child}
use csi_secret_age.Listing.Visible.{ShowsNode, list_children-AllShown}
use csi_secret_age.Vault.{VaultError, VaultManager, load_and_decrypt}
use csi_secret_age.Vault.External.{SecretApi, Sealing}
use csi_secret_age.Pages.{
  UiFolder, UiState, PageError, load_failed, access_denied, top, folder_name, secret_name,
  no_secret, blank, shown_entry, shown_folder, entry_state, folder_state, build_tree_state,
  index_state, entry_page, handle_index, handle_entry, or_root,
}
use csi_secret_age.Pages.Sorting.{sort_by-In, to_folders-In}

-- What a state shows comes from nodes of the map that the user may read.
pub record IsReadable (up : Option UserPermissions) (m : Map VaultNode) (st : UiState)
    : Type 0 where
  pub secrets :
      (x : UiSecret)
      → In x st.entries
      → (node : VaultNode) × In (x.path, node) m
        × (may_read up x.path ≡ true)
        × (node.is_folder ≡ false)
  pub folders :
      (f : UiFolder) → In f st.folders → (current : Text) × ShowsNode up current m (folder f.path)
  pub detail :
      (path : Text)
      → st.folder ≡ some path
      → (node : VaultNode) × (lookup path m ≡ some node)
        × (may_read up path ≡ true)
        × (node.is_folder ≡ true)
  pub entry :
      st.entry ≢ no_secret
      → (node : VaultNode) × (lookup st.entry.path m ≡ some node)
        × (may_read up st.entry.path ≡ true)
        × (node.is_folder ≡ false)

show_child-secret :
    (current path : Text) (b : Bool) (p : Text × Option Text) (x : UiSecret)
    → secret x ≡ show_child current path b p
    → (x.path ≡ path) × (b ≡ false)
show_child-secret current path false (name, none) x h = ground arith
show_child-secret current path false (name, some rest) x h = absurd (ground arith)
show_child-secret current path true (name, none) x h = absurd (ground arith)
show_child-secret current path true (name, some rest) x h = absurd (ground arith)

module _ (up : Option UserPermissions) where
  ShowsNode-secret :
      (current : Text) (m : Map VaultNode) (x : UiSecret)
      → ShowsNode up current m (secret x)
      → (node : VaultNode) × In (x.path, node) m
        × (may_read up x.path ≡ true)
        × (node.is_folder ≡ false)
  ShowsNode-secret current m x s =
      let (same, leaf) = show_child-secret current s.path s.node.is_folder _ x s.shape in
      (s.node, rw same s.held, rw same s.readable, leaf)

  shown_folder-some :
      (current path : Text) (o : Option VaultNode)
      → shown_folder up current o ≡ some path
      → (node : VaultNode) × (current ≡ path)
        × (o ≡ some node)
        × (may_read up current ≡ true)
        × (node.is_folder ≡ true)
  shown_folder-some current path none h = absurd (ground arith)
  shown_folder-some current path (some node) h =
      (node, ground arith, refl, ground arith, ground arith)

  shown_entry-some :
      (path : Text) (o : Option VaultNode)
      → shown_entry up path o ≢ no_secret
      → (node : VaultNode) × (path ≡ (shown_entry up path o).path)
        × (o ≡ some node)
        × (may_read up path ≡ true)
        × (node.is_folder ≡ false)
  shown_entry-some path none h = absurd (h refl)
  shown_entry-some path (some node) h = elim (Bool-cases (not node.is_folder && may_read up path)) [
    | inl shown ↦ (node, rw shown refl, refl, ground arith, ground arith)
    | inr hidden ↦ absurd (h (rw hidden refl))
  ]

  module _ (t : VaultTree) where
    folder_state-IsReadable :
        (current : Text) → IsReadable up (entries t) (folder_state up t current)
    unfolding folder_state
    folder_state-IsReadable current =
        let all = list_children-AllShown up current (entries t) in
        record {
          secrets = λ x i.
              ShowsNode-secret current (entries t) x (all.secrets x (sort_by-In secret_name x _ i));
          folders = λ f i.
              (current, all.folders f.path (to_folders-In f _ (sort_by-In folder_name f _ i)));
          detail = λ path h.
              let (node, same, there, readable, kind) = shown_folder-some current path _ h in
              (node, rw (← same) there, rw (← same) readable, kind);
          entry = λ h. absurd (h refl);
        }

    entry_state-IsReadable :
        (current path : Text) → IsReadable up (entries t) (entry_state up t current path)
    unfolding entry_state
    entry_state-IsReadable current path = record {
      secrets = λ x i. absurd i;
      folders = λ f i. absurd i;
      detail = λ p h. absurd (ground arith);
      entry = λ h.
          let (node, same, there, readable, kind) =
            shown_entry-some path (lookup path (entries t)) h in
          (node, rw same at there, rw same at readable, kind);
    }

    build_tree_state-IsReadable :
        (current path : Text) → IsReadable up (entries t) (build_tree_state t current path up)
    unfolding build_tree_state
    build_tree_state-IsReadable current path = elim (Bool-cases (normalize_path path == top)) [
      | inl none_given ↦
          rw (none_given, build_tree_state) (folder_state-IsReadable (normalize_path current))
      | inr given ↦
          rw (given, build_tree_state)
            (entry_state-IsReadable (normalize_path current) (normalize_path path))
    ]

-- A state with nothing of the vault in it.
pub record IsBare (st : UiState) : Type 0 where
  pub secrets : st.entries ≡ []
  pub folders : st.folders ≡ []
  pub detail : st.folder ≡ none
  pub entry : st.entry ≡ no_secret

blank-IsBare : (l : Bool) (e : Option PageError) → IsBare (record blank { locked = l; error = e })
blank-IsBare l e = record { secrets = refl; folders = refl; detail = refl; entry = refl }

module _ (s : Sealing) (api : SecretApi s.Cipher) (m : VaultManager s.Key) (c : api.Cluster) where
  -- A page has nothing of the vault, or the vault is unlocked and what it shows is readable.
  pub data PageOf (up : Option UserPermissions) (st : UiState) : Type 0 where
    bare : IsBare st → PageOf up st
    from_tree :
        (t : VaultTree)
        → m.is_locked ≡ false
        → load_and_decrypt s api {E = Unit {0}} m c ≡ ok t
        → IsReadable up (entries t) st
        → PageOf up st

  module _ (up : Option UserPermissions) (path : Text) where
    index_state-PageOf :
        (r : Result (VaultError (Unit {0})) VaultTree)
        → m.is_locked ≡ false
        → load_and_decrypt s api {E = Unit {0}} m c ≡ r
        → PageOf up (index_state up path r)
    index_state-PageOf (err e) unlocked loaded = bare (blank-IsBare false (some (load_failed e)))
    index_state-PageOf (ok t) unlocked loaded =
        from_tree t unlocked loaded (build_tree_state-IsReadable up t (or_root path) [])

    -- Whatever the path, the page of / has nothing of the vault, or the vault is unlocked and every
    -- entry, folder and folder detail on it comes from a node of the stored tree that the user may
    -- read.
    pub handle_index-PageOf : PageOf up (handle_index s api m up path c)
    unfolding handle_index
    handle_index-PageOf = elim (Bool-cases m.is_locked) [
      | inl locked ↦
          let page : handle_index s api m up path c ≡ record blank { locked = true } =
            ground arith in
          rw page (bare (blank-IsBare true none))
      | inr unlocked ↦
          let page : index_state up path (load_and_decrypt s api m c)
              ≡ handle_index s api m up path c =
            ground arith in
          rw page at (index_state-PageOf (load_and_decrypt s api m c) unlocked refl)
    ]

    -- The node of an entry page is the one at the path asked for.
    entry_page-PageOf :
        (r : Result (VaultError (Unit {0})) VaultTree)
        → m.is_locked ≡ false
        → load_and_decrypt s api {E = Unit {0}} m c ≡ r
        → PageOf up (entry_page up path r)
    entry_page-PageOf (err e) unlocked loaded = bare (blank-IsBare false (some (load_failed e)))
    entry_page-PageOf (ok t) unlocked loaded = elim (Bool-cases (may_read up path)) [
      | inl readable ↦
          rw readable (from_tree t unlocked loaded (build_tree_state-IsReadable up t [] path))
      | inr refused ↦ rw refused (bare (blank-IsBare false (some (access_denied path))))
    ]

    -- What /entry answers, whatever the path, is the page of a GET, and it has nothing of the vault,
    -- or the vault is unlocked and every entry, folder and folder detail on it comes from a node of
    -- the stored tree that the user may read.
    pub handle_entry-PageOf :
        (method : Text) (st : UiState)
        → handle_entry s api m up method path c ≡ some st
        → (method ≡ codes "GET") × PageOf up st
    unfolding handle_entry
    handle_entry-PageOf method st h = elim (Bool-cases (method == codes "GET")) [
      | inr other ↦ absurd (ground arith)
      | inl get ↦ (
        ground (arith, ==_iff method (codes "GET")),
        elim (Bool-cases m.is_locked) [
          | inl locked ↦
              let page : record blank { locked = true } ≡ st = ground arith in
              rw (← page) (bare (blank-IsBare true none))
          | inr unlocked ↦
              let page : entry_page up path (load_and_decrypt s api {E = Unit {0}} m c) ≡ st =
                ground arith in
              rw (← page)
                (entry_page-PageOf (load_and_decrypt s api {E = Unit {0}} m c) unlocked refl)
        ],
      )
    ]
