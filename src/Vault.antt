-- ===== src/Vault.antt =====
-- `VaultManager` of vault.go over what it calls: the Kubernetes API for one Secret, and age with
-- encoding/json, which are parameters with their documented behaviour as laws.
pub mod External
pub mod Locking
pub mod Loading
pub mod Writing
pub mod Updating
pub mod Unwritten
pub mod Rounds
pub mod Errors
pub mod Outcomes
pub mod Ending
pub mod Crash
pub mod Losing
pub mod Progress
pub mod Reading
use csi_secret_age.Prelude.{
  ℕ, zero, suc, ◌+◌, ◌*◌, Text, List, [], ◌∷◌, Bool, true, false, codes, if◌then◌else◌, Option,
  none, some, Result, ok, err, ltb, ◌>>=◌, nat_eq,
}
use csi_secret_age.Prelude.Maps.{Map, lookup, insert}
use csi_secret_age.Tree.{VaultTree, new_tree, normalize_keys}
use csi_secret_age.Vault.External.{
  ApiError, not_found, already_exists, conflict, Stored, SecretApi, Sealing,
}

pub data VaultError (E : Type 0) : Type 0 where
  vault_locked : VaultError E
  already_unlocked : VaultError E
  invalid_master_key : VaultError E
  cannot_verify : ApiError → VaultError E
  foreign : Text → VaultError E
  api_failed : ApiError → VaultError E
  modifier_failed : E → VaultError E
  nil_map_write : VaultError E
  gave_up : VaultError E

pub record VaultManager (Key : Type 0) : Type 0 where
  pub identity : Option Key
  pub is_locked : Bool

abbrev pub data_key : Text
data_key = codes "vault.enc"

abbrev pub max_retries : ℕ
max_retries = 5

-- `sec.Data[key]`, also of a nil map.
abbrev pub secret_data {ℓ} : {C : Type ℓ} → Option (Map C) → Option C
secret_data none = none
secret_data (some m) = lookup data_key m

abbrev pub lift {ℓ} : {E : Type 0} {A : Type ℓ} → Result Text A → Result (VaultError E) A
lift (ok a) = ok a
lift (err e) = err (foreign e)

abbrev pub lift_modifier : {E A : Type 0} → Result E A → Result (VaultError E) A
lift_modifier (ok a) = ok a
lift_modifier (err e) = err (modifier_failed e)

-- The first X25519 identity of a parsed key file.
unfoldable pub first_identity : {K : Type 0} → List (Option K) → Option K
first_identity [] = none
first_identity (none ∷ ids) = first_identity ids
first_identity (some id ∷ ids) = some id

module _ (s : Sealing) where
  open s use {Key, Cipher}

  abbrev pub initial : VaultManager Key
  initial = record { identity = none; is_locked = true }

  -- The key that operations run with: `locked || identity == nil` refuses.
  unfoldable pub loaded_key : VaultManager Key → Option Key
  loaded_key m = if m.is_locked then none else m.identity

  -- The parsing half of `Unlock`.
  unfoldable pub parse_master_key : {E : Type 0} → Text → Result (VaultError E) Key
  unfolding first_identity
  parse_master_key master_key = elim (s.parse_identities master_key) [
    | err e ↦ err invalid_master_key
    | ok ids ↦ elim (first_identity ids) [ none ↦ err invalid_master_key | some id ↦ ok id ]
  ]

  -- `encryptTree`; the number is the randomness that age draws.
  unfoldable pub encrypt_tree : {E : Type 0} → ℕ → VaultTree → Key → Result (VaultError E) Cipher
  encrypt_tree n t id = do plain ← lift (s.marshal t); lift (s.encrypt n id plain)

  unfoldable pub decrypt_tree : {E : Type 0} → Key → Cipher → Result (VaultError E) VaultTree
  decrypt_tree id ct = do
    reader ← lift (s.decrypt id ct)
    plain ← lift (s.read_all reader)
    lift (s.unmarshal plain)

  -- The tree in the data of the Secret, which is empty where there is no ciphertext.
  unfoldable pub read_cipher : {E : Type 0} → Key → Option Cipher → Result (VaultError E) VaultTree
  read_cipher id none = ok new_tree
  read_cipher id (some ct) = if s.is_empty ct then ok new_tree else decrypt_tree id ct

  module _ (api : SecretApi Cipher) where
    open api use {Cluster}

    verify_cipher : {E : Type 0} → Key → Option Cipher → Result (VaultError E) (Unit {0})
    verify_cipher id none = ok tt
    verify_cipher id (some ct) =
        if s.is_empty ct
        then ok tt
        else elim (s.decrypt id ct) [ ok reader ↦ ok tt | err e ↦ err invalid_master_key ]

    unfoldable pub verify_identity : {E : Type 0} → Key → Cluster → Result (VaultError E) (Unit {0})
    unfolding verify_cipher
    verify_identity id c = elim (api.get c) [
      | ok sec ↦ verify_cipher id (secret_data sec.content)
      | err not_found ↦ ok tt
      | err e ↦ err (cannot_verify e)
    ]

    -- `Unlock` up to the write lock: the checks against the manager and the cluster as they are.
    unfoldable pub prepare_unlock :
        {E : Type 0} → VaultManager Key → Text → Cluster → Result (VaultError E) Key
    unfolding parse_master_key verify_identity
    prepare_unlock m master_key c =
        if m.is_locked
        then (do id ← parse_master_key master_key; verified ← verify_identity id c; ok id)
        else err already_unlocked

    -- `Unlock` under the write lock, by when another call may have won.
    unfoldable pub commit_unlock :
        {E : Type 0} → Key → VaultManager Key → Result (VaultError E) (Unit {0}) × VaultManager Key
    commit_unlock id m =
        if m.is_locked
        then (ok tt, record { identity = some id; is_locked = false })
        else (err already_unlocked, m)

    after_prepare :
        {E : Type 0}
        → Result (VaultError E) Key
        → VaultManager Key
        → Result (VaultError E) (Unit {0}) × VaultManager Key
    unfolding commit_unlock
    after_prepare (err e) m = (err e, m)
    after_prepare (ok id) m = commit_unlock id m

    -- `Unlock` with no other call in between.
    unfoldable pub unlock :
        {E : Type 0}
        → VaultManager Key
        → Text
        → Cluster
        → Result (VaultError E) (Unit {0}) × VaultManager Key
    unfolding prepare_unlock after_prepare
    unlock m master_key c = after_prepare (prepare_unlock m master_key c) m

    -- `NewVaultManager`, given what the key provider returned: an empty key does not unlock.
    unfoldable pub new_vault_manager : Option (Result Text Text) → Cluster → VaultManager Key
    unfolding unlock
    new_vault_manager none c = initial
    new_vault_manager (some (err e)) c = initial
    new_vault_manager (some (ok [])) c = initial
    new_vault_manager (some (ok (x ∷ key))) c = (unlock {E = Unit {0}} initial (x ∷ key) c).1

    unfoldable load_with :
        {E : Type 0} → Key → Result ApiError (Stored Cipher) → Result (VaultError E) VaultTree
    unfolding read_cipher
    load_with id (err not_found) = ok new_tree
    load_with id (err e) = err (api_failed e)
    load_with id (ok sec) = elim (secret_data sec.content) [
      | none ↦ ok new_tree
      | some ct ↦
          if s.is_empty ct then ok new_tree else (do t ← decrypt_tree id ct; ok (normalize_keys t))
    ]

    unfoldable pub load_and_decrypt :
        {E : Type 0} → VaultManager Key → Cluster → Result (VaultError E) VaultTree
    unfolding loaded_key load_with
    load_and_decrypt m c = elim (loaded_key m) [
      | none ↦ err vault_locked
      | some id ↦ load_with id (api.get c)
    ]
