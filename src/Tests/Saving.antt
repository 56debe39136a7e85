-- ===== src/Tests/Saving.antt =====
-- Runs from /update and /delete of ui.go to Mount of csi.go.
use csi_secret_age.Prelude.{
  Text, [], ◌∷◌, ◌≡◌, ◌≢◌, refl, true, false, codes, ◌==◌, if◌then◌else◌, none, some, ok, inl,
}
use csi_secret_age.Prelude.Maps.{Map, lookup, insert, remove}
use csi_secret_age.Strings.{
  trim_space, split, split_first, has_prefix, has_suffix, trim_suffix, join,
}
use csi_secret_age.Paths.{normalize_path, dir, clean, validate_vault_path}
use csi_secret_age.Permissions.{
  UserPermissions, can_write, can_read, can_access, match_any, match_permission, match_prefix,
  namespace_access,
}
use csi_secret_age.Tree.{put_node, delete_node, normalize_keys, keep_node}
use csi_secret_age.Vault.{load_and_decrypt, loaded_key, read_cipher, decrypt_tree, encrypt_tree}
use csi_secret_age.Vault.External.{Stored}
use csi_secret_age.Vault.Writing.{update_vault}
use csi_secret_age.Web.{redirect, handle_update, handle_delete, check_update}
use csi_secret_age.Csi.{
  ProviderServer, mount, mount_unlocked, mount_loop, mount_node, pod_identity, parse_request,
  bad_file_name, server_can_access,
}
use csi_secret_age.Csi.Deleted.{mount-handle_delete}
use csi_secret_age.Csi.Written.{one_file, mount-handle_update}
use csi_secret_age.Tests.Fake.{Box, Shelf, shelf, stamp, others, others-Later}
use csi_secret_age.Tests.Vaults.{held, open_manager, before_save, after_save}
use csi_secret_age.Tests.Maps.{maps, maps-IsDistinct, tidy}

abbrev bob : UserPermissions
bob = record { username = codes "bob"; is_admin = false; patterns = codes "/app/*" ∷ [] }

abbrev form : Text → Text
form name =
    if name == codes "path"
    then codes " app/key"
    else if name == codes "value"
    then codes "v"
    else []

save_run :
    handle_update maps shelf others open_manager (some bob) (codes "POST") form before_save
    ≡ (redirect (codes "/"), after_save)
unfolding handle_update ◌==◌ check_update validate_vault_path normalize_path trim_space can_write
    can_read match_any match_permission has_suffix match_prefix trim_suffix clean update_vault
    loaded_key read_cipher lookup decrypt_tree put_node encrypt_tree insert remove
save_run = refl

abbrev server : ProviderServer
server = record {
  perm_mgr = some (record {
    permissions = [];
    admins = [];
    namespace_permissions = (codes "app", codes "/app/*" ∷ []) ∷ [];
  });
  allow_unauthenticated = false;
}

abbrev attrs : Map Text
attrs =
    (codes "csi.storage.k8s.io/pod.namespace", codes "app")
    ∷ (codes "csi.storage.k8s.io/serviceAccount.name", codes "web")
    ∷ (codes "secrets", codes "token=/app/key")
    ∷ []

abbrev saved_secret : Stored Box
saved_secret = elim after_save [
  | some sec ↦ sec
  | none ↦ record { content = none; resource_version = [] }
]

mount-handle_update_example :
    mount maps shelf server open_manager after_save (ok attrs)
    ≡ ok (one_file (codes "token") (codes "v"))
unfolding pod_identity ◌==◌ trim_space lookup split split_first has_prefix normalize_path
    parse_request clean server_can_access can_access match_any match_permission match_prefix
    namespace_access has_suffix join trim_suffix bad_file_name
mount-handle_update_example =
    mount-handle_update maps shelf others others-Later maps-IsDistinct open_manager (some bob)
      (codes "POST") form before_save after_save after_save (codes "/") saved_secret server attrs
      (codes "app") (codes "web") (codes "token=/app/key") (codes "token") save_run tidy refl refl
      refl refl refl refl refl

abbrev after_delete : Shelf
after_delete = some (
    stamp
      (held 1
        (record { nodes = some ((codes "/app", record { value = []; is_folder = true }) ∷ []) }))
      (1 ∷ []))

abbrev without_password : Stored Box
without_password = elim after_delete [
  | some sec ↦ sec
  | none ↦ record { content = none; resource_version = [] }
]

abbrev admin : UserPermissions
admin = record { username = codes "alice"; is_admin = true; patterns = [] }

delete_run :
    handle_delete maps shelf others open_manager
      (some admin)
      (codes "POST")
      (λ name. codes "db/password")
      before_save
    ≡ (redirect (codes "/?path=/db"), after_delete)
unfolding handle_delete ◌==◌ can_write can_read update_vault loaded_key read_cipher lookup
    decrypt_tree encrypt_tree dir insert normalize_path delete_node remove
delete_run = refl

abbrev app_attrs : Map Text
app_attrs =
    (codes "csi.storage.k8s.io/pod.namespace", codes "app")
    ∷ (codes "csi.storage.k8s.io/serviceAccount.name", codes "web")
    ∷ (codes "secrets", codes "folder=/app")
    ∷ []

abbrev open_server : ProviderServer
open_server = record { perm_mgr = none; allow_unauthenticated = true }

mount_run :
    mount maps shelf open_server open_manager after_delete (ok app_attrs)
    ≡ ok (one_file (codes "folder") [])
unfolding mount mount_unlocked pod_identity ◌==◌ trim_space lookup load_and_decrypt decrypt_tree
    mount_loop split split_first has_prefix normalize_keys insert normalize_path server_can_access
    bad_file_name mount_node parse_request clean keep_node loaded_key remove
mount_run = refl

mount-handle_delete_example :
    parse_request (codes "folder=/app")
    ≢ some (codes "folder", normalize_path (codes "db/password"))
unfolding split lookup ◌==◌
mount-handle_delete_example =
    mount-handle_delete maps shelf others others-Later open_manager (some admin) (codes "POST")
      (λ name. codes "db/password") before_save after_delete after_delete (codes "/?path=/db")
      without_password open_server app_attrs (one_file (codes "folder") []) (codes "folder=/app")
      (codes "folder") delete_run tidy refl refl mount_run (inl refl)
