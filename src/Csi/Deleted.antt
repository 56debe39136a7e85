-- ===== src/Csi/Deleted.antt =====
-- From the form of /delete (ui.go) through UpdateVault and LoadAndDecrypt (vault.go) to Mount
-- (csi.go).
use csi_secret_age.Prelude.{
  ℕ, Text, List, ◌≡◌, ◌≢◌, ◌∙◌, Bool, arith, codes, In, Option, none, some, ok, inl, inr,
}
use csi_secret_age.Prelude.Maps.{Map, lookup}
use csi_secret_age.Strings.{split}
use csi_secret_age.Paths.{normalize_path}
use csi_secret_age.Permissions.{UserPermissions}
use csi_secret_age.Tree.{VaultTree, Conflict, entries, normalize_keys, delete_node}
use csi_secret_age.Tree.Settled.{
  HasNormalKeys, HasNormalKeys-same, absent-normalize_keys, delete_node-HasNormalKeys,
  lookup-delete_node,
}
use csi_secret_age.Vault.{VaultManager, read_cipher, loaded_key, load_and_decrypt}
use csi_secret_age.Vault.External.{Stored, SecretApi, Sealing}
use csi_secret_age.Vault.Updating.{Idle, Committed, held_cipher}
use csi_secret_age.Vault.Reading.{load_and_decrypt-Committed}
use csi_secret_age.Web.{redirect, handle_delete}
use csi_secret_age.Web.Editing.{handle_delete-Changed}
use csi_secret_age.Csi.{
  ProviderServer, File, MountResponse, server_can_access, attribute, parse_request, mount,
}
use csi_secret_age.Csi.Answers.{Serves, ServesAll, done, skipped, served}
use csi_secret_age.Csi.Serving.{Mounted, mount-Mounted}

module _ (allowed : Text → Bool) (t : VaultTree) (request name path : Text)
    (parsed : parse_request request ≡ some (name, path)) where
  ServesAll-In :
      (requests : List Text) (files : List File)
      → ServesAll allowed t requests files
      → In request requests
      → (file : File) × Serves allowed t name path file
  ServesAll-In requests files done i = elim i [ ]
  ServesAll-In requests files (skipped nothing all) (inl e) =
      absurd (let here = rw e at parsed in ground arith)
  ServesAll-In requests files (skipped nothing all) (inr i) = ServesAll-In _ _ all i
  ServesAll-In requests files (served {file = file} name' path' parsed' serves all) (inl e) =
      let same_name : name' ≡ name = ground (arith, e, parsed, parsed') in
      let same_path : path' ≡ path = ground (arith, e, parsed, parsed') in
      (file, rw (← same_name) (rw (← same_path) serves))
  ServesAll-In requests files (served name' path' parsed' serves all) (inr i) =
      ServesAll-In _ _ all i

module _ (s : Sealing) (api : SecretApi s.Cipher) (others : ℕ → api.Cluster → api.Cluster)
    (fair : (n : ℕ) (c : api.Cluster) → api.Later c (others n c)) where
  open s use {Key}
  open api use {Cluster, stored}

  -- After a deletion that was committed, the tree that is loaded does not hold the path.
  deleted-Committed :
      (m : VaultManager Key) (key : Key) (path : Text) (c d e : Cluster) (sec : Stored s.Cipher)
      → loaded_key s m ≡ some key
      → (w : Committed s api others fair Conflict (λ t. ok (delete_node path t)) key c d)
      → HasNormalKeys (entries w.tree)
      → api.get e ≡ ok sec
      → stored e ≡ stored d
      → (t : VaultTree) × (load_and_decrypt s api {E = Unit {0}} m e ≡ ok t)
        × (lookup path (entries t) ≡ none)
  deleted-Committed m key path c d e sec loaded w normal got unchanged =
      let (read, load) =
        load_and_decrypt-Committed s api others fair Conflict (Unit {0})
          (λ t. ok (delete_node path t)) m key c d e sec loaded w got unchanged in
      let changed : delete_node path w.tree ≡ w.tree' = ground (arith, w.changed) in
      let kept : HasNormalKeys (entries w.now) =
        HasNormalKeys-same (entries w.now) (entries w.tree') w.same
          (rw changed at (delete_node-HasNormalKeys path w.tree normal)) in
      (
        normalize_keys w.now,
        load,
        absent-normalize_keys w.now path kept
            (w.same path ∙ rw changed at (lookup-delete_node path w.tree)),
      )

  Mounted-held :
      (m : VaultManager Key) (e : Cluster) (t : VaultTree) (server : ProviderServer)
      (attrs : Map Text) (response : MountResponse) (request name path : Text)
      → load_and_decrypt s api {E = Unit {0}} m e ≡ ok t
      → lookup path (entries t) ≡ none
      → Mounted s api server m e (ok attrs) response
      → In request (split b',' (attribute (codes "secrets") attrs))
      → parse_request request ≢ some (name, path)
  Mounted-held m e t server attrs response request name path load gone mounted i parsed =
      let same : attrs ≡ mounted.attrs = ground (arith, mounted.given) in
      let tree : mounted.tree ≡ t = ground (arith, mounted.loaded) in
      let (file, serves) =
        ServesAll-In (server_can_access server mounted.namespace mounted.account) mounted.tree
          request name path parsed _ response.files mounted.files (rw same at i) in
      let held = serves.held in absurd (let here = rw tree at held in ground arith)

  -- What was deleted through /delete is not mounted: after a redirect from /delete, as long as the
  -- Secret is the one that was written, no mount that succeeds has a request for the path, whatever
  -- pod asks. Assumes that other clients store only trees with normalised keys.
  pub mount-handle_delete :
      (m : VaultManager Key) (up : Option UserPermissions) (method : Text) (form : Text → Text)
      (c d e : Cluster) (l : Text) (sec : Stored s.Cipher) (server : ProviderServer)
      (attrs : Map Text) (response : MountResponse) (request name : Text)
      → handle_delete s api others m up method form c ≡ (redirect l, d)
      → ((key : Key) (b : Cluster) (t : VaultTree)
          → loaded_key s m ≡ some key
          → Idle s api others fair c b
          → read_cipher s {E = Conflict} key (held_cipher (stored b)) ≡ ok t
          → HasNormalKeys (entries t))
      → api.get e ≡ ok sec
      → stored e ≡ stored d
      → mount s api server m e (ok attrs) ≡ ok response
      → In request (split b',' (attribute (codes "secrets") attrs))
      → parse_request request ≢ some (name, normalize_path (form (codes "path")))
  mount-handle_delete m up method form c d e l sec server attrs response request name saved tidy got
        unchanged run asked =
      let (allowed, change) =
        handle_delete-Changed s api others fair m up method form c d l saved in
      let (t, load, gone) =
        deleted-Committed m change.key (normalize_path (form (codes "path"))) c d e sec
          change.loaded change.committed
          (tidy change.key change.committed.before change.committed.tree change.loaded
            change.committed.others_only change.committed.read)
          got unchanged in
      Mounted-held m e t server attrs response request name _ load gone
        (mount-Mounted s api server m e (ok attrs) response run) asked
