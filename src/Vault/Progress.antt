-- ===== src/Vault/Progress.antt =====
-- When `UpdateVault` succeeds.
use csi_secret_age.Prelude.{
  ℕ, suc, ◌+◌, ◌-◌, ◌<◌, ◌*◌, ◌≡◌, refl, ap, ◌∙◌, arith, Option, none, some, Result, ok, err,
}
use csi_secret_age.Prelude.Maps.{Map, insert}
use csi_secret_age.Tree.{VaultTree}
use csi_secret_age.Vault.External.{ApiError, not_found, Stored, SecretApi, Sealing}
use csi_secret_age.Vault.{VaultManager, data_key, max_retries, loaded_key}
use csi_secret_age.Vault.Writing.{
  Attempt, return, after_create, after_update, create_with, update_with, attempt_at, attempt,
  update_loop, update_vault, sealed,
}
use csi_secret_age.Vault.Losing.{Writes, modified-Writes, Lost, loop_resumes}

module _ (s : Sealing) (api : SecretApi s.Cipher) (others : ℕ → api.Cluster → api.Cluster) where
  open s use {Key, Cipher}
  open api use {Cluster, stored}

  -- The Secret as Get returns it: there with data, or missing.
  pub data Found (c : Cluster) : Option (Stored Cipher) → Type 0 where
    missing : api.get c ≡ err not_found → Found c none
    present :
        {sec : Stored Cipher} (m : Map Cipher)
        → api.get c ≡ ok sec
        → sec.content ≡ some m
        → Found c (some sec)

  -- The API carries out a write of this ciphertext on the object as Get returned it.
  abbrev pub Accepts : Cluster → Cipher → Option (Stored Cipher) → Type 0
  Accepts c ct none = (api.create (sealed s api others ct) c).0 ≡ ok tt
  Accepts c ct (some sec) =
      (m : Map Cipher)
      → sec.content ≡ some m
      → (api.update (record sec { content = some (insert data_key ct m) }) c).0 ≡ ok tt

  -- The other clients do nothing in the attempt.
  abbrev pub Quiet : ℕ → Cluster → Type 0
  Quiet n c = (others (2 * n) c ≡ c) × (others (2 * n + 1) c ≡ c)

  module _ {E : Type 0} (modifier : VaultTree → Result E VaultTree) (id : Key) where
    created_ok :
        (p : Result ApiError (Unit {0}) × Cluster)
        → p.0 ≡ ok tt
        → after_create s api others {E = E} p ≡ return (ok tt) p.1
    created_ok (ok tt, d) h = refl
    created_ok (err e, d) h = cc

    updated_ok :
        (n : ℕ) (p : Result ApiError (Unit {0}) × Cluster)
        → p.0 ≡ ok tt
        → after_update s api others {E = E} n p ≡ return (ok tt) p.1
    updated_ok n (ok tt, d) h = refl
    updated_ok n (err e, d) h = cc

    -- How an attempt ends that goes through.
    abbrev pub Succeeds : Attempt s api others E → Type 0
    Succeeds a = (d : Cluster) × (a ≡ return (ok tt) d)

    attempt-Succeeds :
        (n : ℕ) (c : Cluster) (o : Option (Stored Cipher)) (ct : Cipher)
        → Quiet n c
        → Found c o
        → Writes s api others modifier id n o ct
        → Accepts c ct o
        → Succeeds (attempt s api others modifier id n c)
    unfolding attempt attempt_at create_with update_with
    attempt-Succeeds n c none ct (q, q') (missing got) w a = (
      (api.create (sealed s api others ct) c).1,
      rw q (
          rw got (
            rw q' (
              rw (modified-Writes s api others modifier id n none ct w)
                (created_ok (api.create (sealed s api others ct) c) a)))),
    )
    attempt-Succeeds n c (some sec) ct (q, q') (present m got filled) w a = (
      (api.update (record sec { content = some (insert data_key ct m) }) c).1,
      rw q (
          rw got (
            rw q' (
              rw (modified-Writes s api others modifier id n (some sec) ct w) (
                rw filled (
                  updated_ok n (api.update (record sec { content = some (insert data_key ct m) }) c)
                    (a m filled)))))),
    )

    loop_return :
        (left n : ℕ) (c : Cluster)
        → Succeeds (attempt s api others modifier id n c)
        → (update_loop s api others modifier id (suc left) n c).0 ≡ ok tt
    unfolding update_loop
    loop_return left n c (d, h) = rw (h, update_loop) refl

    -- If fewer than five attempts lost, each because it found no Secret and its Create was told that
    -- there is one, or because its Update was told of a conflict, and in the next one the others are
    -- quiet, the Secret is missing or has data, the modifier and the encryption succeed on what is
    -- stored, and the API carries out the write, then the call returns no error.
    pub update_vault-ok :
        (m : VaultManager Key) (c d : Cluster) (k : ℕ) (o : Option (Stored Cipher)) (ct : Cipher)
        → loaded_key s m ≡ some id
        → Lost s api others modifier id c k d
        → k < 5
        → Quiet k d
        → Found d o
        → Writes s api others modifier id k o ct
        → Accepts d ct o
        → (update_vault s api others m modifier c).0 ≡ ok tt
    unfolding update_vault
    update_vault-ok m c d k o ct key lost few quiet found writes accepts =
        let left : ℕ = max_retries - suc k in
        let resumed : update_loop s api others modifier id max_retries 0 c
            ≡ update_loop s api others modifier id (suc left) k d =
          loop_resumes s api others modifier id (suc left) max_retries lost few (omega arith) in
        rw (key, update_vault)
          (ap (λ r. r.0) resumed
            ∙ loop_return left k d (attempt-Succeeds k d o ct quiet found writes accepts))
