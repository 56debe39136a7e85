-- ===== src/Web/Unlocking.antt =====
-- Who can unlock the vault, and who can download it.
use csi_secret_age.Prelude.{
  Text, ◌≡◌, ◌≢◌, refl, ◌∙◌, true, false, arith, codes, ◌==◌, Option, some, Result, ok, err,
  Bool-cases, inl, inr, >>=-eq-ok,
}
use csi_secret_age.Permissions.{UserPermissions}
use csi_secret_age.Vault.{
  VaultError, already_unlocked, VaultManager, unlock, parse_master_key, verify_identity,
  secret_data,
}
use csi_secret_age.Vault.External.{ApiError, Stored, SecretApi, Sealing}
use csi_secret_age.Vault.Locking.{prepare_unlock_checks, unlock_changed}
use csi_secret_age.Web.{
  download, may_unlock, may_export, unlocked_reply, handle_unlock, exported, handle_export,
}

module _ (s : Sealing) (api : SecretApi s.Cipher) where
  open s use {Key, Cipher}
  open api use {Cluster}

  unlocked_reply_state :
      (r : Result (VaultError (Unit {0})) (Unit {0}) × VaultManager Key)
      → (unlocked_reply s api r).1 ≡ r.1
  unlocked_reply_state (ok u, m) = refl
  unlocked_reply_state (err already_unlocked, m) = refl
  unlocked_reply_state (err e, m) = refl

  -- What a request that changed the manager was.
  pub record Unlocked (m : VaultManager Key) (up : Option UserPermissions) (form : Text → Text)
      (c : Cluster) (m' : VaultManager Key) : Type 0 where
    pub allowed : may_unlock up ≡ true
    pub was_locked : m.is_locked ≡ true
    pub key : Key
    pub parsed : parse_master_key s {E = Unit {0}} (form (codes "master_key")) ≡ ok key
    pub verified : verify_identity s api {E = Unit {0}} key c ≡ ok tt
    pub now : m' ≡ record { identity = some key; is_locked = false }

  unlock-Unlocked :
      (m : VaultManager Key) (up : Option UserPermissions) (form : Text → Text) (c : Cluster)
      → may_unlock up ≡ true
      → (unlock s api {E = Unit {0}} m (form (codes "master_key")) c).1 ≢ m
      → Unlocked m up form c (unlock s api {E = Unit {0}} m (form (codes "master_key")) c).1
  unlock-Unlocked m up form c allowed changed =
      let master_key : Text = form (codes "master_key") in
      let (id, prepared, was_locked, now) = unlock_changed s api m master_key c changed in
      let (k, parsed, rest) =
        >>=-eq-ok (parse_master_key s {E = Unit {0}} master_key) _
          (prepare_unlock_checks s api m master_key c id prepared) in
      let (u, verified, same) = >>=-eq-ok (verify_identity s api {E = Unit {0}} k c) _ rest in
      let key : k ≡ id = ground arith in
      record {
        allowed = allowed;
        was_locked = was_locked;
        key = id;
        parsed = rw key at parsed;
        verified = rw key at verified;
        now = now;
      }

  -- A request to /unlock that changed the manager came from an admin, or in development without
  -- permissions, found the vault locked, and left it with the key that the submitted master key
  -- parses to and that passed the check against the stored vault.
  pub handle_unlock-Unlocked :
      (m : VaultManager Key) (up : Option UserPermissions) (method : Text) (form : Text → Text)
      (c : Cluster)
      → (handle_unlock s api m up method form c).1 ≢ m
      → Unlocked m up form c (handle_unlock s api m up method form c).1
  unfolding handle_unlock
  handle_unlock-Unlocked m up method form c changed = elim (Bool-cases (method == codes "POST")) [
    | inr other_method ↦ absurd (changed (rw other_method refl))
    | inl post ↦ elim (Bool-cases (may_unlock up)) [
      | inr denied ↦ absurd (changed (rw (post, handle_unlock) (rw denied refl)))
      | inl allowed ↦
          let same : (handle_unlock s api m up method form c).1
              ≡ (unlock s api {E = Unit {0}} m (form (codes "master_key")) c).1 =
            rw (post, handle_unlock)
              (rw allowed (unlocked_reply_state (unlock s api m (form (codes "master_key")) c))) in
          rw same (unlock-Unlocked m up form c allowed (λ e. changed (same ∙ e)))
    ]
  ]

  -- The encrypted vault is handed out only while the vault is unlocked, and only to an admin or in
  -- development without permissions; what is handed out is what is stored.
  pub handle_export-download :
      (m : VaultManager Key) (up : Option UserPermissions) (c : Cluster) (content : Option Cipher)
      → handle_export s api m up c ≡ download content
      → (m.is_locked ≡ false)
        × (may_export up ≡ true)
        × ((sec : Stored Cipher) × (api.stored c ≡ some sec) × (content ≡ secret_data sec.content))
  unfolding handle_export
  handle_export-download m up c content h = elim (Bool-cases m.is_locked) [
    | inl locked ↦ absurd (ground arith)
    | inr open' ↦ elim (Bool-cases (may_export up)) [
      | inr denied ↦ absurd (ground arith)
      | inl allowed ↦ (
        open',
        allowed,
        downloaded (api.get c) refl (rw allowed at (rw (open', handle_export) at h)),
      )
    ]
  ]
    where
      downloaded :
          (r : Result ApiError (Stored Cipher))
          → api.get c ≡ r
          → exported s api r ≡ download content
          → (sec : Stored Cipher) × (api.stored c ≡ some sec) × (content ≡ secret_data sec.content)
      downloaded (ok sec) got e = (sec, api.get_found c sec got, ground arith)
      downloaded (err x) got e = absurd (ground arith)
