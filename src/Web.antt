-- ===== src/Web.antt =====
-- The handlers of ui.go that change state or hand out the vault: /update, /delete, /unlock and
-- /export. `up` is what `getUserPerms` finds in the context of the request, `form` is
-- `r.FormValue`, and the text of an answer is left out.
pub mod Editing
pub mod Unlocking
use csi_secret_age.Prelude.{
  ℕ, Text, List, [], ◌∷◌, ◌++◌, Bool, true, false, not, ◌&&◌, ◌||◌, codes, ◌==◌, if◌then◌else◌,
  Option, none, some, Result, ok, err,
}
use csi_secret_age.Strings.{trim_space}
use csi_secret_age.Paths.{PathError, dot, dir, normalize_path, validate_vault_path}
use csi_secret_age.Permissions.{UserPermissions, can_write, can_export}
use csi_secret_age.Tree.{VaultTree, Conflict, put_node, delete_node}
use csi_secret_age.Vault.{VaultError, already_unlocked, VaultManager, secret_data, unlock}
use csi_secret_age.Vault.External.{ApiError, Stored, SecretApi, Sealing}
use csi_secret_age.Vault.Writing.{update_vault}

-- An answer: an error with its status, a redirect, the page that asks for the key again, or the
-- encrypted vault.
pub data Reply (Cipher : Type 0) : Type 0 where
  status : ℕ → Reply Cipher
  redirect : Text → Reply Cipher
  invalid_key_page : Reply Cipher
  download : Option Cipher → Reply Cipher

abbrev pub root : Text
root = codes "/"

-- Without permissions in the context, which is so only in development, everything is allowed.
abbrev pub may_write : Option UserPermissions → Text → Bool
may_write none path = true
may_write (some up) path = can_write up path

abbrev pub may_export : Option UserPermissions → Bool
may_export none = true
may_export (some up) = can_export up

abbrev pub may_unlock : Option UserPermissions → Bool
may_unlock none = true
may_unlock (some up) = up.is_admin

pub data UpdateError : Type 0 where
  bad_path : PathError → UpdateError
  value_required : UpdateError
  not_writable : UpdateError

pub record UpdateForm : Type 0 where
  pub path : Text
  pub is_folder : Bool
  pub value : Text

abbrev pub read_form : (Text → Text) → UpdateForm
read_form form = record {
  path = normalize_path (trim_space (form (codes "path")));
  is_folder = form (codes "is_folder") == codes "true";
  value = form (codes "value");
}

abbrev pub check_allowed : Option UserPermissions → UpdateForm → Result UpdateError UpdateForm
check_allowed up f = if may_write up f.path then ok f else err not_writable

abbrev pub check_value :
    Option UserPermissions
    → UpdateForm
    → Result PathError (Unit {0})
    → Result UpdateError UpdateForm
check_value up f (err e) = err (bad_path e)
check_value up f (ok u) =
    if not f.is_folder && f.value == [] then err value_required else check_allowed up f

-- The checks of /update, in their order.
unfoldable pub check_update : Option UserPermissions → UpdateForm → Result UpdateError UpdateForm
check_update up f = check_value up f (validate_vault_path f.path)

module _ (s : Sealing) (api : SecretApi s.Cipher) where
  open s use {Key, Cipher}
  open api use {Cluster}

  abbrev pub Answered : Type 0
  Answered = Reply Cipher × Cluster

  -- The answer to a change: the location, or 500.
  abbrev pub saved : {E : Type 0} → Text → Result (VaultError E) (Unit {0}) × Cluster → Answered
  saved location (ok u, c) = (redirect location, c)
  saved location (err e, c) = (status 500, c)

  module _ (others : ℕ → Cluster → Cluster) where
    abbrev pub update_checked :
        VaultManager Key → Cluster → Result UpdateError UpdateForm → Answered
    update_checked m c (err e) = (status 500, c)
    update_checked m c (ok f) =
        saved root (update_vault s api others m (put_node f.path f.is_folder f.value) c)

    -- /update
    unfoldable pub handle_update :
        VaultManager Key → Option UserPermissions → Text → (Text → Text) → Cluster → Answered
    handle_update m up method form c =
        if not (method == codes "POST") || m.is_locked
        then (status 405, c)
        else update_checked m c (check_update up (read_form form))

    abbrev pub parent_dir : Text → Text
    parent_dir path = if dir path == dot then root else dir path

    -- The modifier of /delete never fails.
    abbrev pub delete_modifier : Text → VaultTree → Result Conflict VaultTree
    delete_modifier path t = ok (delete_node path t)

    -- /delete
    unfoldable pub handle_delete :
        VaultManager Key → Option UserPermissions → Text → (Text → Text) → Cluster → Answered
    handle_delete m up method form c =
        let path = normalize_path (form (codes "path")) in
        if not (method == codes "POST") || m.is_locked
        then (status 405, c)
        else if not (may_write up path)
        then (status 403, c)
        else saved (codes "/?path=" ++ parent_dir path)
            (update_vault s api others m (delete_modifier path) c)

  abbrev pub unlocked_reply :
      Result (VaultError (Unit {0})) (Unit {0}) × VaultManager Key → Reply Cipher × VaultManager Key
  unlocked_reply (ok u, m) = (redirect root, m)
  unlocked_reply (err already_unlocked, m) = (status 409, m)
  unlocked_reply (err e, m) = (invalid_key_page, m)

  -- /unlock
  unfoldable pub handle_unlock :
      VaultManager Key
      → Option UserPermissions
      → Text
      → (Text → Text)
      → Cluster
      → Reply Cipher × VaultManager Key
  handle_unlock m up method form c =
      if not (method == codes "POST")
      then (status 405, m)
      else if not (may_unlock up)
      then (status 403, m)
      else unlocked_reply (unlock s api m (form (codes "master_key")) c)

  abbrev pub exported : Result ApiError (Stored Cipher) → Reply Cipher
  exported (ok sec) = download (secret_data sec.content)
  exported (err e) = status 500

  -- /export
  unfoldable pub handle_export : VaultManager Key → Option UserPermissions → Cluster → Reply Cipher
  handle_export m up c =
      if m.is_locked
      then status 403
      else if not (may_export up)
      then status 403
      else exported (api.get c)
