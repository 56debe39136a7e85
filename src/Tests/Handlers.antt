-- ===== src/Tests/Handlers.antt =====
-- Runs of the handlers.
use csi_secret_age.Vault.Writing.{update_vault}
use csi_secret_age.Strings.{has_suffix, trim_suffix, trim_space}
use csi_secret_age.Prelude.{
  Text, [], ◌∷◌, ◌≡◌, ◌≢◌, refl, true, false, codes, ◌==◌, if◌then◌else◌, some, ok,
}
use csi_secret_age.Prelude.Maps.{lookup, insert, remove}
use csi_secret_age.Paths.{normalize_path, clean, dir, validate_vault_path}
use csi_secret_age.Permissions.{
  UserPermissions, can_write, can_read, match_any, match_permission, match_prefix, can_export,
}
use csi_secret_age.Tree.{put_node, delete_node}
use csi_secret_age.Vault.{
  initial, secret_data, loaded_key, read_cipher, decrypt_tree, encrypt_tree, unlock,
}
use csi_secret_age.Vault.External.{Stored}
use csi_secret_age.Web.{
  check_update, redirect, status, download, read_form, may_write, may_export, handle_update,
  handle_delete, handle_unlock, handle_export,
}
use csi_secret_age.Web.Editing.{Updated, Changed, handle_update-Updated, handle_delete-Changed}
use csi_secret_age.Web.Unlocking.{Unlocked, handle_unlock-Unlocked, handle_export-download}
use csi_secret_age.Tests.Fake.{Box, boxes, Shelf, shelf, stamp, others, others-Later}
use csi_secret_age.Tests.Vaults.{old_tree, held, open_manager, before_save, after_save}

abbrev admin : UserPermissions
admin = record { username = codes "alice"; is_admin = true; patterns = [] }

abbrev pub bob : UserPermissions
bob = record { username = codes "bob"; is_admin = false; patterns = codes "/app/*" ∷ [] }

abbrev pub update_form : Text → Text
update_form name =
    if name == codes "path"
    then codes " app/key"
    else if name == codes "value"
    then codes "v"
    else []

update_run :
    handle_update boxes shelf others open_manager (some bob) (codes "POST") update_form before_save
    ≡ (redirect (codes "/"), after_save)
unfolding handle_update ◌==◌ check_update validate_vault_path normalize_path trim_space can_write
    can_read match_any match_permission has_suffix match_prefix trim_suffix clean update_vault
    loaded_key read_cipher lookup decrypt_tree put_node encrypt_tree insert
update_run = refl

handle_update-Updated_example :
    Updated boxes shelf others others-Later
      (some bob)
      (read_form update_form)
      open_manager
      before_save
      after_save
handle_update-Updated_example =
    handle_update-Updated boxes shelf others others-Later open_manager (some bob) (codes "POST")
      update_form before_save after_save (codes "/") update_run

-- Deleting a path with ".." that climbs out of what bob may write.
climbing_delete :
    handle_delete boxes shelf others open_manager
      (some bob)
      (codes "POST")
      (λ name. codes "/app/../db/password")
      before_save
    ≡ (status 403, before_save)
unfolding handle_delete ◌==◌ can_write can_read match_any match_permission has_suffix normalize_path
    match_prefix trim_suffix clean
climbing_delete = refl

abbrev after_delete : Shelf
after_delete = some (
    stamp
      (held 1
        (record { nodes = some ((codes "/app", record { value = []; is_folder = true }) ∷ []) }))
      (1 ∷ []))

delete_run :
    handle_delete boxes shelf others open_manager
      (some admin)
      (codes "POST")
      (λ name. codes "db/password")
      before_save
    ≡ (redirect (codes "/?path=/db"), after_delete)
unfolding handle_delete ◌==◌ can_write can_read update_vault loaded_key read_cipher lookup
    decrypt_tree encrypt_tree dir insert normalize_path delete_node remove
delete_run = refl

handle_delete-Changed_example :
    (may_write (some admin) (normalize_path (codes "db/password")) ≡ true)
    × Changed boxes shelf others others-Later
        (λ t. ok (delete_node (normalize_path (codes "db/password")) t))
        open_manager
        before_save
        after_delete
handle_delete-Changed_example =
    handle_delete-Changed boxes shelf others others-Later open_manager (some admin) (codes "POST")
      (λ name. codes "db/password") before_save after_delete (codes "/?path=/db") delete_run

abbrev key_form : Text → Text
key_form name = codes "key"

refuses_bob :
    (handle_unlock boxes shelf (initial boxes) (some bob) (codes "POST") key_form before_save)
    ≡ (status 403, initial boxes)
unfolding handle_unlock ◌==◌
refuses_bob = refl

unlock_run :
    (handle_unlock boxes shelf (initial boxes) (some admin) (codes "POST") key_form before_save)
    ≡ (redirect (codes "/"), open_manager)
unfolding handle_unlock ◌==◌ unlock lookup
unlock_run = refl

unlock_changes :
    (handle_unlock boxes shelf (initial boxes) (some admin) (codes "POST") key_form before_save).1
    ≢ initial boxes
unlock_changes = rw unlock_run (λ e. cc)

handle_unlock-Unlocked_example :
    Unlocked boxes shelf
      (initial boxes)
      (some admin)
      key_form
      before_save
      (handle_unlock boxes shelf (initial boxes) (some admin) (codes "POST") key_form before_save).1
handle_unlock-Unlocked_example =
    handle_unlock-Unlocked boxes shelf (initial boxes) (some admin) (codes "POST") key_form
      before_save unlock_changes

abbrev box : Box
box = record { key = 107; draw = 0; tree = old_tree }

export_run : handle_export boxes shelf open_manager (some admin) before_save ≡ download (some box)
unfolding handle_export lookup can_export
export_run = refl

handle_export-download_example :
    (open_manager.is_locked ≡ false)
    × (may_export (some admin) ≡ true)
    × ((sec : Stored Box) × (before_save ≡ some sec) × (some box ≡ secret_data sec.content))
handle_export-download_example =
    handle_export-download boxes shelf open_manager (some admin) before_save (some box) export_run
