-- ===== src/Vault/Writing.antt =====
-- `EncryptAndSave` and `UpdateVault` of vault.go. Other clients of the API may act before every
-- call that the program makes of it: `others n` is what they do before call `n`.
use csi_secret_age.Prelude.{
  ℕ, zero, suc, ◌+◌, ◌-◌, ◌*◌, [], if◌then◌else◌, Option, none, some, Result, ok, err, ltb, ◌>>=◌,
}
use csi_secret_age.Prelude.Maps.{Map, insert}
use csi_secret_age.Tree.{VaultTree}
use csi_secret_age.Vault.External.{
  ApiError, not_found, already_exists, conflict, Stored, SecretApi, Sealing,
}
use csi_secret_age.Vault.{
  VaultError, vault_locked, api_failed, nil_map_write, gave_up, VaultManager, data_key, max_retries,
  secret_data, lift_modifier, loaded_key, encrypt_tree, read_cipher,
}

module _ (s : Sealing) (api : SecretApi s.Cipher) (others : ℕ → api.Cluster → api.Cluster) where
  open s use {Key, Cipher}
  open api use {Cluster}

  -- A result, and the cluster that the call leaves.
  abbrev pub Saved : Type 0 → Type 0
  Saved E = Result (VaultError E) (Unit {0}) × Cluster

  abbrev pub api_result : {E : Type 0} → Result ApiError (Unit {0}) × Cluster → Saved E
  api_result (ok u, c) = (ok u, c)
  api_result (err e, c) = (err (api_failed e), c)

  abbrev pub content_or_new : Option (Map Cipher) → Map Cipher
  content_or_new none = []
  content_or_new (some m) = m

  abbrev pub sealed : Cipher → Map Cipher
  sealed ct = insert data_key ct []

  save_cipher : {E : Type 0} → Cipher → Result ApiError (Stored Cipher) → Cluster → Saved E
  save_cipher ct (err not_found) c = api_result (api.create (sealed ct) c)
  save_cipher ct (err e) c = (err (api_failed e), c)
  save_cipher ct (ok sec) c = api_result (
      api.update (record sec { content = some (insert data_key ct (content_or_new sec.content)) })
        c)

  save_with : {E : Type 0} → Result (VaultError E) Cipher → Cluster → Saved E
  unfolding save_cipher
  save_with (err e) c = (err e, c)
  save_with (ok ct) c = let c0 = others 0 c in save_cipher ct (api.get c0) (others 1 c0)

  unfoldable pub encrypt_and_save :
      {E : Type 0} → ℕ → VaultManager Key → VaultTree → Cluster → Saved E
  unfolding save_with
  encrypt_and_save n m t c = elim (loaded_key s m) [
    | none ↦ (err vault_locked, c)
    | some id ↦ save_with (encrypt_tree s n t id) c
  ]

  -- How one attempt of `UpdateVault` ends: it returns, or the loop goes on.
  pub data Attempt (E : Type 0) : Type 0 where
    return : Result (VaultError E) (Unit {0}) → Cluster → Attempt E
    again : Cluster → Attempt E

  -- The result of Create: somebody else created it first, or it is returned.
  abbrev pub after_create : {E : Type 0} → Result ApiError (Unit {0}) × Cluster → Attempt E
  after_create (ok u, c) = return (ok u) c
  after_create (err already_exists, c) = again c
  after_create (err e, c) = return (err (api_failed e)) c

  -- The result of Update: a conflict is tried again, but for the last attempt.
  abbrev pub after_update : {E : Type 0} → ℕ → Result ApiError (Unit {0}) × Cluster → Attempt E
  after_update n (ok u, c) = return (ok u) c
  after_update n (err conflict, c) =
      if ltb n (max_retries - 1) then again c else return (err (api_failed conflict)) c
  after_update n (err e, c) = return (err (api_failed e)) c

  module _ {E : Type 0} (modifier : VaultTree → Result E VaultTree) (id : Key) where
    -- Read, modify, encrypt: what both branches of an attempt do before they write.
    unfoldable pub modified : ℕ → Option Cipher → Result (VaultError E) Cipher
    modified n old = do
      t ← read_cipher s id old
      t' ← lift_modifier (modifier t)
      encrypt_tree s n t' id

    unfoldable pub create_with : Result (VaultError E) Cipher → Cluster → Attempt E
    create_with (err e) c = return (err e) c
    create_with (ok ct) c = after_create (api.create (sealed ct) c)

    -- An assignment to a nil map panics.
    unfoldable pub update_with :
        ℕ → Result (VaultError E) Cipher → Stored Cipher → Option (Map Cipher) → Cluster → Attempt E
    update_with n (err e) sec content c = return (err e) c
    update_with n (ok ct) sec none c = return (err nil_map_write) c
    update_with n (ok ct) sec (some m) c =
        after_update n (api.update (record sec { content = some (insert data_key ct m) }) c)

    unfoldable pub attempt_at : ℕ → Result ApiError (Stored Cipher) → Cluster → Attempt E
    unfolding modified create_with update_with
    attempt_at n (err not_found) c = create_with (modified n none) (others (2 * n + 1) c)
    attempt_at n (err e) c = return (err (api_failed e)) c
    attempt_at n (ok sec) c =
        update_with n (modified n (secret_data sec.content)) sec sec.content (others (2 * n + 1) c)

    -- One round of the loop: the others act, the Secret is read, and the round goes on from it.
    unfoldable pub attempt : ℕ → Cluster → Attempt E
    unfolding attempt_at
    attempt n c = let c0 = others (2 * n) c in attempt_at n (api.get c0) c0

    unfoldable pub update_loop : ℕ → ℕ → Cluster → Saved E
    unfolding attempt
    update_loop zero n c = (err gave_up, c)
    update_loop (suc left) n c = elim (attempt n c) [
      | return r d ↦ (r, d)
      | again d ↦ update_loop left (n + 1) d
    ]

  unfoldable pub update_vault :
      {E : Type 0} → VaultManager Key → (VaultTree → Result E VaultTree) → Cluster → Saved E
  unfolding update_loop
  update_vault m modifier c = elim (loaded_key s m) [
    | none ↦ (err vault_locked, c)
    | some id ↦ update_loop modifier id max_retries 0 c
  ]
