-- ===== src/Csi/Written.antt =====
-- From the form of /update (ui.go) through UpdateVault and LoadAndDecrypt (vault.go) to Mount
-- (csi.go).
use csi_secret_age.Prelude.{
  ℕ, Text, [], ◌∷◌, ◌≡◌, refl, ◌∙◌, Bool, true, false, arith, codes, ==_refl, Option, some, ok,
  Bool-cases, inl, inr,
}
use csi_secret_age.Prelude.Maps.{Map, lookup}
use csi_secret_age.Strings.{split, trim_space}
use csi_secret_age.Paths.{normalize_path}
use csi_secret_age.Permissions.{UserPermissions}
use csi_secret_age.Tree.{VaultNode, VaultTree, Conflict, entries, normalize_keys, put_node}
use csi_secret_age.Tree.Consistent.{lookup-put_node}
use csi_secret_age.Tree.Settled.{
  HasNormalKeys, IsDistinct, lookup-normalize_keys, HasNormalKeys-same, put_node-HasNormalKeys,
}
use csi_secret_age.Vault.{VaultManager, read_cipher, loaded_key, load_and_decrypt}
use csi_secret_age.Vault.External.{Stored, SecretApi, Sealing}
use csi_secret_age.Vault.Updating.{Idle, Committed, held_cipher}
use csi_secret_age.Vault.Reading.{Read-IsDistinct, load_and_decrypt-Committed}
use csi_secret_age.Web.{redirect, UpdateForm, read_form, handle_update}
use csi_secret_age.Web.Editing.{handle_update-Updated}
use csi_secret_age.Csi.{
  ProviderServer, File, MountResponse, server_can_access, attribute, pod_identity, parse_request,
  bad_file_name, mount_node, mount_one, mount_loop, mount, mount_unlocked, versions,
}

lookup-put_node_self :
    (path value : Text) (is_folder : Bool) (t u : VaultTree)
    → put_node path is_folder value t ≡ ok u
    → lookup path (entries u) ≡ some (record { value = value; is_folder = is_folder })
lookup-put_node_self path value is_folder t u h =
    lookup-put_node path value is_folder t u h path ∙ rw (==_refl path) refl

-- A file with the value, under the name that was asked for.
abbrev pub one_file : Text → Text → MountResponse
one_file name value =
    let file : File = record { path = name; mode = 0o644; contents = value } in
    record { files = file ∷ []; object_version = versions (file ∷ []) }

mount_loop-one :
    (allowed : Text → Bool) (t : VaultTree) (request name path : Text) (node : VaultNode)
    → parse_request request ≡ some (name, path)
    → bad_file_name name ≡ false
    → allowed path ≡ true
    → lookup path (entries t) ≡ some node
    → mount_loop allowed t (request ∷ []) ≡ ok ((one_file name node.value).files)
unfolding mount_loop mount_one mount_node
mount_loop-one allowed t request name path node parsed plain granted held =
    rw (parsed, mount_loop) (rw (plain, mount_one) (rw granted (rw held refl)))

loaded_key-unlocked :
    (s : Sealing) (m : VaultManager s.Key) (id : s.Key)
    → loaded_key s m ≡ some id
    → m.is_locked ≡ false
unfolding loaded_key
loaded_key-unlocked s m id h = elim (Bool-cases m.is_locked) [
  | inl shut ↦ absurd (ground arith)
  | inr unlocked ↦ unlocked
]

module _ (s : Sealing) (api : SecretApi s.Cipher) (others : ℕ → api.Cluster → api.Cluster)
    (fair : (n : ℕ) (c : api.Cluster) → api.Later c (others n c))
    (distinct : (plain : s.Plain) (u : VaultTree)
      → s.unmarshal plain ≡ ok u
      → IsDistinct (entries u)) where
  open s use {Key}
  open api use {Cluster, stored}

  -- After an update that was committed, the tree that is loaded holds the new node.
  load-Committed :
      (m : VaultManager Key) (key : Key) (raw path value : Text) (is_folder : Bool)
      (c d e : Cluster) (sec : Stored s.Cipher)
      → loaded_key s m ≡ some key
      → path ≡ normalize_path raw
      → (w : Committed s api others fair Conflict (put_node path is_folder value) key c d)
      → HasNormalKeys (entries w.tree)
      → api.get e ≡ ok sec
      → stored e ≡ stored d
      → (t : VaultTree) × (load_and_decrypt s api {E = Unit {0}} m e ≡ ok t)
        × (lookup path (entries t) ≡ some (record { value = value; is_folder = is_folder }))
  load-Committed m key raw path value is_folder c d e sec loaded spelled w normal got unchanged =
      let (read, load) =
        load_and_decrypt-Committed s api others fair Conflict (Unit {0})
          (put_node path is_folder value) m key c d e sec loaded w got unchanged in
      let kept : HasNormalKeys (entries w.now) =
        HasNormalKeys-same (entries w.now) (entries w.tree') w.same (
          put_node-HasNormalKeys raw path value is_folder w.tree w.tree' spelled w.changed
            normal) in
      (
        normalize_keys w.now,
        load,
        lookup-normalize_keys w.now path _ kept (Read-IsDistinct s distinct key _ w.now read)
            (w.same path ∙ lookup-put_node_self path value is_folder w.tree w.tree' w.changed),
      )

  mount_unlocked-loaded :
      (m : VaultManager Key) (e : Cluster) (t : VaultTree) (server : ProviderServer)
      (attrs : Map Text) (ns sa request name path : Text) (node : VaultNode)
      → load_and_decrypt s api {E = Unit {0}} m e ≡ ok t
      → lookup path (entries t) ≡ some node
      → pod_identity attrs ≡ ok (ns, sa)
      → split b',' (attribute (codes "secrets") attrs) ≡ request ∷ []
      → parse_request request ≡ some (name, path)
      → bad_file_name name ≡ false
      → server_can_access server ns sa path ≡ true
      → mount_unlocked s api server m e (ok attrs) ≡ ok (one_file name node.value)
  unfolding mount_unlocked
  mount_unlocked-loaded m e t server attrs ns sa request name path node load held pod asked parsed
        plain granted =
      rw (pod, mount_unlocked)
        (rw load (
          rw asked (
            rw
              (mount_loop-one (server_can_access server ns sa) t request name path node parsed plain
                granted held)
              refl)))

  mount-loaded :
      (m : VaultManager Key) (key : Key) (e : Cluster) (t : VaultTree) (server : ProviderServer)
      (attrs : Map Text) (ns sa request name path : Text) (node : VaultNode)
      → loaded_key s m ≡ some key
      → load_and_decrypt s api {E = Unit {0}} m e ≡ ok t
      → lookup path (entries t) ≡ some node
      → pod_identity attrs ≡ ok (ns, sa)
      → split b',' (attribute (codes "secrets") attrs) ≡ request ∷ []
      → parse_request request ≡ some (name, path)
      → bad_file_name name ≡ false
      → server_can_access server ns sa path ≡ true
      → mount s api server m e (ok attrs) ≡ ok (one_file name node.value)
  unfolding mount
  mount-loaded m key e t server attrs ns sa request name path node loaded load held pod asked parsed
        plain granted =
      ground (
        arith,
        loaded_key-unlocked s m key loaded,
        mount_unlocked-loaded m e t server attrs ns sa request name path node load held pod asked
            parsed plain granted,
      )

  -- What was saved through /update is what a pod mounts: after a redirect from /update, as long as
  -- the Secret is the one that was written, a mount by a pod that may read the path, with one request
  -- for it under a proper file name, succeeds with one file that holds the value of the form. Assumes
  -- that other clients store only trees with normalised keys.
  pub mount-handle_update :
      (m : VaultManager Key) (up : Option UserPermissions) (method : Text) (form : Text → Text)
      (c d e : Cluster) (l : Text) (sec : Stored s.Cipher) (server : ProviderServer)
      (attrs : Map Text) (ns sa request name : Text)
      → handle_update s api others m up method form c ≡ (redirect l, d)
      → ((key : Key) (b : Cluster) (t : VaultTree)
          → loaded_key s m ≡ some key
          → Idle s api others fair c b
          → read_cipher s {E = Conflict} key (held_cipher (stored b)) ≡ ok t
          → HasNormalKeys (entries t))
      → api.get e ≡ ok sec
      → stored e ≡ stored d
      → pod_identity attrs ≡ ok (ns, sa)
      → split b',' (attribute (codes "secrets") attrs) ≡ request ∷ []
      → parse_request request ≡ some (name, (read_form form).path)
      → bad_file_name name ≡ false
      → server_can_access server ns sa (read_form form).path ≡ true
      → mount s api server m e (ok attrs) ≡ ok (one_file name (read_form form).value)
  mount-handle_update m up method form c d e l sec server attrs ns sa request name saved tidy got
        unchanged pod asked parsed plain granted =
      let f : UpdateForm = read_form form in
      let done = (handle_update-Updated s api others fair m up method form c d l saved).changed in
      let (t, load, held) =
        load-Committed m done.key (trim_space (form (codes "path"))) f.path f.value f.is_folder c d
          e sec done.loaded refl done.committed
          (tidy done.key done.committed.before done.committed.tree done.loaded
            done.committed.others_only done.committed.read)
          got unchanged in
      mount-loaded m done.key e t server attrs ns sa request name f.path _ done.loaded load held pod
        asked parsed plain granted
