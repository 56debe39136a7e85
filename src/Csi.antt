-- ===== src/Csi.antt =====
-- `ProviderServer` of csi.go: which files a mount request is answered with.
pub mod Answers
pub mod Serving
pub mod Written
pub mod Deleted
use csi_secret_age.Prelude.{
  ℕ, Text, List, [], ◌∷◌, Bool, true, false, ◌||◌, codes, ◌==◌, if◌then◌else◌, Option, none, some,
  Result, ok, err, ◌>>=◌,
}
use csi_secret_age.Prelude.Maps.{Map, lookup}
use csi_secret_age.Strings.{contains, contains_any, has_prefix, split, split_first, trim_space}
use csi_secret_age.Paths.{normalize_path}
use csi_secret_age.Permissions.{Policy, can_access}
use csi_secret_age.Tree.{VaultNode, VaultTree, entries}
use csi_secret_age.Vault.{VaultError, VaultManager, load_and_decrypt}
use csi_secret_age.Vault.External.{SecretApi, Sealing}

pub record ProviderServer : Type 0 where
  pub perm_mgr : Option Policy
  pub allow_unauthenticated : Bool

pub record File : Type 0 where
  pub path : Text
  pub mode : ℕ
  pub contents : Text

pub record ObjectVersion : Type 0 where
  pub id : Text
  pub version : Text

pub record MountResponse : Type 0 where
  pub files : List File
  pub object_version : List ObjectVersion

pub data MountError : Type 0 where
  locked : MountError
  bad_attributes : Text → MountError
  identity_required : MountError
  forbidden_characters : MountError
  load_failed : VaultError (Unit {0}) → MountError
  invalid_file_name : Text → MountError
  path_not_found : Text → MountError
  access_denied : Text → MountError

unfoldable pub server_can_access : ProviderServer → Text → Text → Text → Bool
server_can_access s namespace sa vault_path = elim s.perm_mgr [
  | none ↦ s.allow_unauthenticated
  | some pol ↦ can_access pol namespace sa vault_path
]

abbrev pub text_or_empty : Option Text → Text
text_or_empty none = []
text_or_empty (some s) = s

-- `attrs[key]`
abbrev pub attribute : Text → Map Text → Text
attribute key attrs = text_or_empty (lookup key attrs)

unfoldable pub forbidden : Text → Bool
forbidden s = contains_any s (b'/' ∷ b'\\' ∷ 0 ∷ [])

unfoldable pub check_identity : Text → Text → Result MountError (Text × Text)
unfolding forbidden
check_identity ns sa =
    if ns == [] || sa == []
    then err identity_required
    else if forbidden ns || forbidden sa
    then err forbidden_characters
    else ok (ns, sa)

-- The identity of the pod, from the attributes.
unfoldable pub pod_identity : Map Text → Result MountError (Text × Text)
unfolding check_identity
pod_identity attrs =
    check_identity (trim_space (attribute (codes "csi.storage.k8s.io/pod.namespace") attrs))
      (trim_space (attribute (codes "csi.storage.k8s.io/serviceAccount.name") attrs))

abbrev pub named_path : Text × Option Text → Option (Text × Text)
named_path (name, none) = none
named_path (name, some path) = some (trim_space name, normalize_path (trim_space path))

-- One element of the `secrets` attribute: a file name and a vault path, or nothing to do.
unfoldable pub parse_request : Text → Option (Text × Text)
parse_request pair =
    let trimmed = trim_space pair in
    if trimmed == [] then none else named_path (split_first b'=' trimmed)

unfoldable pub bad_file_name : Text → Bool
bad_file_name name =
    contains name b'/' || contains name b'\\' || name == codes ".." || has_prefix name (codes ".")

unfoldable pub mount_node : Text → Text → Bool → Option VaultNode → Result MountError File
mount_node name path allowed none = err (path_not_found path)
mount_node name path allowed (some node) =
    if allowed
    then ok (record { path = name; mode = 0o644; contents = node.value })
    else err (access_denied path)

module _ (allowed : Text → Bool) (t : VaultTree) where
  unfoldable pub mount_one : Text → Text → Result MountError File
  unfolding mount_node bad_file_name
  mount_one name path =
      if bad_file_name name
      then err (invalid_file_name name)
      else mount_node name path (allowed path) (lookup path (entries t))

  unfoldable pub mount_loop : List Text → Result MountError (List File)
  unfolding mount_one parse_request
  mount_loop [] = ok []
  mount_loop (request ∷ requests) =
      let rest = mount_loop requests in
      elim (parse_request request) [
        | none ↦ rest
        | some (name, path) ↦ mount_one name path >>= λ file. rest >>= λ files. ok (file ∷ files)
      ]

abbrev pub latest : File → ObjectVersion
latest f = record { id = f.path; version = codes "latest" }

abbrev pub versions : List File → List ObjectVersion
versions [] = []
versions (f ∷ fs) = latest f ∷ versions fs

abbrev pub lift_load : Result (VaultError (Unit {0})) VaultTree → Result MountError VaultTree
lift_load (ok t) = ok t
lift_load (err e) = err (load_failed e)

abbrev pub lift_attributes : Result Text (Map Text) → Result MountError (Map Text)
lift_attributes (ok attrs) = ok attrs
lift_attributes (err e) = err (bad_attributes e)

-- `Mount` of an unlocked vault.
unfoldable pub mount_unlocked :
    (s : Sealing) (api : SecretApi s.Cipher)
    → ProviderServer
    → VaultManager s.Key
    → api.Cluster
    → Result Text (Map Text)
    → Result MountError MountResponse
mount_unlocked s api server m c attributes = do
  attrs ← lift_attributes attributes
  pod ← pod_identity attrs
  t ← lift_load (load_and_decrypt s api m c)
  files ←
      mount_loop (server_can_access server pod.0 pod.1) t
        (split b',' (attribute (codes "secrets") attrs))
  ok (record { files = files; object_version = versions files })

-- `Mount`, given what `json.Unmarshal` makes of the attributes.
unfoldable pub mount :
    (s : Sealing) (api : SecretApi s.Cipher)
    → ProviderServer
    → VaultManager s.Key
    → api.Cluster
    → Result Text (Map Text)
    → Result MountError MountResponse
mount s api server m c attributes =
    if m.is_locked then err locked else mount_unlocked s api server m c attributes
