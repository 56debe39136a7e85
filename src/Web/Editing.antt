-- ===== src/Web/Editing.antt =====
-- What an answer of /update or /delete says about the stored vault.
use csi_secret_age.Prelude.{
  ℕ, Text, [], ◌≡◌, ◌≢◌, refl, ap, ◌∙◌, true, false, not, ◌||◌, arith, codes, ◌==◌, ==_iff, Option,
  some, Result, ok, err, Bool-cases, Option-cases, inl, inr,
}
use csi_secret_age.Strings.{trim_space}
use csi_secret_age.Paths.{PathError, normalize_path, validate_vault_path}
use csi_secret_age.Paths.Validity.{IsCanonical}
use csi_secret_age.Permissions.{UserPermissions}
use csi_secret_age.Tree.{VaultTree, Conflict, put_node, delete_node}
use csi_secret_age.Tree.Consistent.{IsCanonical-of_valid}
use csi_secret_age.Vault.{VaultError, VaultManager, loaded_key}
use csi_secret_age.Vault.External.{SecretApi, Sealing}
use csi_secret_age.Vault.Writing.{update_vault}
use csi_secret_age.Vault.Updating.{Committed}
use csi_secret_age.Vault.Rounds.{update_vault-Committed}
use csi_secret_age.Web.{
  Reply, redirect, root, may_write, UpdateError, UpdateForm, read_form, check_value, check_update,
  saved, update_checked, handle_update, handle_delete,
}

-- What the checks of /update let through.
pub record Passes (up : Option UserPermissions) (f : UpdateForm) : Type 0 where
  pub valid : validate_vault_path f.path ≡ ok tt
  pub has_value : f.is_folder ≡ false → f.value ≢ []
  pub allowed : may_write up f.path ≡ true

check_value-Passes :
    (up : Option UserPermissions) (f g : UpdateForm) (r : Result PathError (Unit {0}))
    → validate_vault_path f.path ≡ r
    → check_value up f r ≡ ok g
    → Passes up f × (f ≡ g)
check_value-Passes up f g (err e) v h = cc
check_value-Passes up f g (ok tt) v h = (
  record {
    valid = v;
    has_value = λ leaf. ground (arith, ==_iff f.value []);
    allowed = ground arith;
  },
  ground arith,
)

pub check_update-Passes :
    (up : Option UserPermissions) (f g : UpdateForm)
    → check_update up f ≡ ok g
    → Passes up f × (f ≡ g)
unfolding check_update
check_update-Passes up f g h = check_value-Passes up f g _ refl h

module _ (s : Sealing) (api : SecretApi s.Cipher) (others : ℕ → api.Cluster → api.Cluster)
    (fair : (n : ℕ) (c : api.Cluster) → api.Later c (others n c)) where
  open s use {Key, Cipher}
  open api use {Cluster}

  -- The change went through with the key of the manager.
  pub record Changed (modifier : VaultTree → Result Conflict VaultTree) (m : VaultManager Key)
      (c d : Cluster) : Type 0 where
    pub key : Key
    pub loaded : loaded_key s m ≡ some key
    pub committed : Committed s api others fair Conflict modifier key c d

  update_vault-Changed :
      (modifier : VaultTree → Result Conflict VaultTree) (m : VaultManager Key) (c d : Cluster)
      → update_vault s api others m modifier c ≡ (ok tt, d)
      → Changed modifier m c d
  unfolding update_vault
  update_vault-Changed modifier m c d h = elim (Option-cases (loaded_key s m)) [
    | inl none_loaded ↦ absurd (ground arith)
    | inr (key, loaded) ↦ record {
      key = key;
      loaded = loaded;
      committed = update_vault-Committed s api others fair modifier key m c d loaded h;
    }
  ]

  saved-Changed :
      (location l : Text) (modifier : VaultTree → Result Conflict VaultTree) (m : VaultManager Key)
      (c d : Cluster) (r : Result (VaultError Conflict) (Unit {0}) × Cluster)
      → update_vault s api others m modifier c ≡ r
      → saved s api location r ≡ (redirect l, d)
      → Changed modifier m c d
  saved-Changed location l modifier m c d (ok tt, e) run h =
      let same : e ≡ d = ap (λ (a : Reply Cipher × Cluster). a.1) h in
      update_vault-Changed modifier m c d (run ∙ ap (λ (x : Cluster). (ok tt, x)) same)
  saved-Changed location l modifier m c d (err x, e) run h = absurd (ground arith)

  pub record Updated (up : Option UserPermissions) (f : UpdateForm) (m : VaultManager Key)
      (c d : Cluster) : Type 0 where
    pub canonical : IsCanonical f.path
    pub has_value : f.is_folder ≡ false → f.value ≢ []
    pub allowed : may_write up f.path ≡ true
    pub changed : Changed (put_node f.path f.is_folder f.value) m c d

  update_checked-Updated :
      (m : VaultManager Key) (up : Option UserPermissions) (raw : Text) (f : UpdateForm)
      (c d : Cluster) (l : Text) (r : Result UpdateError UpdateForm)
      → f.path ≡ normalize_path raw
      → check_update up f ≡ r
      → update_checked s api others m c r ≡ (redirect l, d)
      → Updated up f m c d
  update_checked-Updated m up raw f c d l (err e) spelled checked h = absurd (ground arith)
  update_checked-Updated m up raw f c d l (ok g) spelled checked h =
      let (passes, same) = check_update-Passes up f g checked in
      record {
        canonical = IsCanonical-of_valid raw f.path spelled passes.valid;
        has_value = passes.has_value;
        allowed = passes.allowed;
        changed =
            rw same (saved-Changed root l (put_node g.path g.is_folder g.value) m c d _ refl h);
      }

  -- A redirect from /update means that the path is canonical, a secret has a value, the user may
  -- write the path, and the vault was changed in one step by putting the node there, without a
  -- conflict with the tree stored at that moment.
  pub handle_update-Updated :
      (m : VaultManager Key) (up : Option UserPermissions) (method : Text) (form : Text → Text)
      (c d : Cluster) (l : Text)
      → handle_update s api others m up method form c ≡ (redirect l, d)
      → Updated up (read_form form) m c d
  unfolding handle_update
  handle_update-Updated m up method form c d l h =
      elim (Bool-cases (not (method == codes "POST") || m.is_locked)) [
        | inl refused ↦ absurd (ground arith)
        | inr accepted ↦
            update_checked-Updated m up (trim_space (form (codes "path"))) (read_form form) c d l _
              refl refl (rw (accepted, handle_update) at h)
      ]

  -- A redirect from /delete means that the user may write the path and the vault was changed in
  -- one step by deleting what is stored under it.
  pub handle_delete-Changed :
      (m : VaultManager Key) (up : Option UserPermissions) (method : Text) (form : Text → Text)
      (c d : Cluster) (l : Text)
      → handle_delete s api others m up method form c ≡ (redirect l, d)
      → (may_write up (normalize_path (form (codes "path"))) ≡ true)
        × Changed (λ t. ok (delete_node (normalize_path (form (codes "path"))) t)) m c d
  unfolding handle_delete
  handle_delete-Changed m up method form c d l h =
      let path : Text = normalize_path (form (codes "path")) in
      elim (Bool-cases (not (method == codes "POST") || m.is_locked)) [
        | inl refused ↦ absurd (ground arith)
        | inr accepted ↦ elim (Bool-cases (may_write up path)) [
          | inr denied ↦ absurd (ground arith)
          | inl allowed ↦ (
            allowed,
            saved-Changed _ l _ m c d _ refl (rw allowed at (rw (accepted, handle_delete) at h)),
          )
        ]
      ]
