-- ===== src/Tests/Mounting.antt =====
-- A run of Mount of csi.go.
use csi_secret_age.Prelude.{Text, [], ◌∷◌, ◌≡◌, refl, false, codes, ◌==◌, some, Result, ok}
use csi_secret_age.Prelude.Maps.{Map, lookup, insert}
use csi_secret_age.Permissions.{
  can_access, match_any, match_permission, match_prefix, namespace_access,
}
use csi_secret_age.Tree.{normalize_keys, keep_node}
use csi_secret_age.Paths.{normalize_path, clean}
use csi_secret_age.Vault.{loaded_key, decrypt_tree, load_and_decrypt}
use csi_secret_age.Csi.{
  ProviderServer, MountResponse, mount, mount_unlocked, pod_identity, mount_loop, server_can_access,
  bad_file_name, mount_node, parse_request,
}
use csi_secret_age.Strings.{
  trim_space, split, split_first, has_prefix, has_suffix, trim_suffix, join,
}
use csi_secret_age.Csi.Serving.{Mounted, mount-Mounted}
use csi_secret_age.Tests.Fake.{boxes, shelf}
use csi_secret_age.Tests.Vaults.{open_manager, before_save}

abbrev server : ProviderServer
server = record {
  perm_mgr = some (record {
    permissions = [];
    admins = [];
    namespace_permissions =
        (codes "app/web", codes "/db/*" ∷ []) ∷ (codes "app", codes "/*" ∷ []) ∷ [];
  });
  allow_unauthenticated = false;
}

abbrev attributes : Result Text (Map Text)
attributes = ok (
    (codes "csi.storage.k8s.io/pod.namespace", codes "app")
    ∷ (codes "csi.storage.k8s.io/serviceAccount.name", codes "web")
    ∷ (codes "secrets", codes " password = db/password ,,")
    ∷ [])

abbrev response : MountResponse
response = record {
  files = record { path = codes "password"; mode = 0o644; contents = codes "s3cret" } ∷ [];
  object_version = record { id = codes "password"; version = codes "latest" } ∷ [];
}

mount_run : mount boxes shelf server open_manager before_save attributes ≡ ok response
unfolding mount mount_unlocked pod_identity ◌==◌ trim_space lookup load_and_decrypt decrypt_tree
    mount_loop split split_first has_prefix normalize_keys insert normalize_path server_can_access
    can_access match_any bad_file_name mount_node parse_request clean match_permission match_prefix
    namespace_access has_suffix join trim_suffix keep_node loaded_key
mount_run = refl

mount-Mounted_example : Mounted boxes shelf server open_manager before_save attributes response
mount-Mounted_example =
    mount-Mounted boxes shelf server open_manager before_save attributes response mount_run
