-- ===== src/Pages.antt =====
-- The pages of ui.go: the state of a folder or an entry that `buildTreeState` makes, and the
-- handlers of / and /entry. The template that renders a state is not modelled.
pub mod Sorting
pub mod Readable
pub mod Ordered
use csi_secret_age.Prelude.{
  ℕ, Text, List, [], ◌∷◌, Bool, true, false, not, ◌&&◌, ◌||◌, codes, ◌==◌, ltb, nat_eq,
  if◌then◌else◌, Option, none, some, Result, ok, err,
}
use csi_secret_age.Prelude.Maps.{Map, lookup}
use csi_secret_age.Strings.{split, trim}
use csi_secret_age.Paths.{slash, dot, base, dir, join_path, normalize_path}
use csi_secret_age.Permissions.{UserPermissions}
use csi_secret_age.Tree.{VaultNode, VaultTree, entries}
use csi_secret_age.Listing.{UiSecret, Children, may_read, is_top, list_children}
use csi_secret_age.Vault.{VaultError, VaultManager, load_and_decrypt}
use csi_secret_age.Vault.External.{SecretApi, Sealing}

pub record UiFolder : Type 0 where
  pub name : Text
  pub path : Text

pub record Breadcrumb : Type 0 where
  pub name : Text
  pub path : Text
  pub is_last : Bool

pub data PageError : Type 0 where
  load_failed : VaultError (Unit {0}) → PageError
  access_denied : Text → PageError

-- `folder` is the path of the folder detail.
pub record UiState : Type 0 where
  pub locked : Bool
  pub error : Option PageError
  pub is_entry_view : Bool
  pub current_path : Text
  pub current_name : Text
  pub parent_path : Text
  pub folders : List UiFolder
  pub entries : List UiSecret
  pub folder : Option Text
  pub breadcrumbs : List Breadcrumb
  pub entry_path : Text
  pub entry : UiSecret

abbrev pub top : Text
top = codes "/"

-- "." stands for the root.
abbrev pub or_top : Text → Text
or_top p = if p == dot then top else p

abbrev pub crumb : Text → Text → List Text → Breadcrumb
crumb path part rest = record {
  name = part;
  path = path;
  is_last = elim rest [ [] ↦ true | p ∷ ps ↦ false ];
}

-- The loop over the parts, with `buildPath` as it is before the next one.
unfoldable pub crumbs : Text → List Text → List Breadcrumb
crumbs build_path [] = []
crumbs build_path (part ∷ rest) =
    crumb (or_top (join_path build_path part)) part rest
    ∷ crumbs (or_top (join_path build_path part)) rest

unfoldable pub breadcrumbs : Text → List Breadcrumb
unfolding crumbs
breadcrumbs path = crumbs top (split slash (trim slash path))

-- The order of Go strings.
unfoldable pub text_lt : Text → Text → Bool
text_lt s [] = false
text_lt [] (d ∷ t) = true
text_lt (c ∷ s) (d ∷ t) = ltb c d || nat_eq c d && text_lt s t

-- `sort.Slice` by name. Which of two equal names comes first is open in Go.
module _ {A : Type 0} (name : A → Text) where
  unfoldable pub insert_by : A → List A → List A
  insert_by x [] = x ∷ []
  insert_by x (y ∷ ys) =
      let rest = insert_by x ys in if text_lt (name y) (name x) then y ∷ rest else x ∷ y ∷ ys

  unfoldable pub sort_by : List A → List A
  unfolding insert_by
  sort_by [] = []
  sort_by (x ∷ xs) = insert_by x (sort_by xs)

abbrev pub to_folders : List Text → List UiFolder
to_folders [] = []
to_folders (path ∷ paths) = record { name = base path; path = path } ∷ to_folders paths

abbrev pub folder_name : UiFolder → Text
folder_name f = f.name

abbrev pub secret_name : UiSecret → Text
secret_name s = s.name

abbrev pub no_secret : UiSecret
no_secret = record { path = []; name = [] }

abbrev pub blank : UiState
blank = record {
  locked = false;
  error = none;
  is_entry_view = false;
  current_path = [];
  current_name = [];
  parent_path = [];
  folders = [];
  entries = [];
  folder = none;
  breadcrumbs = [];
  entry_path = [];
  entry = no_secret;
}

abbrev pub shown_entry : Option UserPermissions → Text → Option VaultNode → UiSecret
shown_entry up path none = no_secret
shown_entry up path (some node) =
    if not node.is_folder && may_read up path
    then record { path = path; name = base path }
    else no_secret

abbrev pub shown_folder : Option UserPermissions → Text → Option VaultNode → Option Text
shown_folder up path none = none
shown_folder up path (some node) = if node.is_folder && may_read up path then some path else none

-- `buildTreeState` with an entry path other than the root.
unfoldable pub entry_state : Option UserPermissions → VaultTree → Text → Text → UiState
entry_state up t current path = record blank {
  is_entry_view = true;
  current_path = current;
  parent_path = or_top (dir path);
  breadcrumbs = breadcrumbs path;
  entry_path = path;
  entry = shown_entry up path (lookup path (entries t));
}

-- `buildTreeState` for a folder.
unfoldable pub folder_state : Option UserPermissions → VaultTree → Text → UiState
folder_state up t current =
    let children = list_children up current (entries t) in
    record blank {
      current_path = if is_top current then top else current;
      current_name = if is_top current then [] else base current;
      parent_path = or_top (dir current);
      breadcrumbs = if is_top current then [] else breadcrumbs current;
      folder = shown_folder up current (lookup current (entries t));
      folders = sort_by folder_name (to_folders children.folders);
      entries = sort_by secret_name children.secrets;
    }

unfoldable pub build_tree_state : VaultTree → Text → Text → Option UserPermissions → UiState
unfolding entry_state folder_state
build_tree_state t current_path entry_path up =
    if normalize_path entry_path == top
    then folder_state up t (normalize_path current_path)
    else entry_state up t (normalize_path current_path) (normalize_path entry_path)

abbrev pub failed : PageError → UiState
failed e = record blank { error = some e }

abbrev pub or_root : Text → Text
or_root p = if p == [] then top else p

abbrev pub index_state :
    Option UserPermissions → Text → Result (VaultError (Unit {0})) VaultTree → UiState
index_state up path (ok t) = build_tree_state t (or_root path) [] up
index_state up path (err e) = failed (load_failed e)

abbrev pub entry_page :
    Option UserPermissions → Text → Result (VaultError (Unit {0})) VaultTree → UiState
entry_page up path (ok t) =
    if may_read up path then build_tree_state t [] path up else failed (access_denied path)
entry_page up path (err e) = failed (load_failed e)

module _ (s : Sealing) (api : SecretApi s.Cipher) where
  -- /, with the value of `path` in the query
  unfoldable pub handle_index :
      VaultManager s.Key → Option UserPermissions → Text → api.Cluster → UiState
  handle_index m up path c =
      if m.is_locked
      then record blank { locked = true }
      else index_state up path (load_and_decrypt s api m c)

  -- /entry; another method than GET is answered with 405
  unfoldable pub handle_entry :
      VaultManager s.Key → Option UserPermissions → Text → Text → api.Cluster → Option UiState
  handle_entry m up method path c =
      if not (method == codes "GET")
      then none
      else some (
          if m.is_locked
          then record blank { locked = true }
          else entry_page up path (load_and_decrypt s api m c))
