-- ===== src/Vault/Unwritten.antt =====
-- An attempt of `UpdateVault` that does not return nil has written nothing.
use csi_secret_age.Prelude.{
  ℕ, ◌+◌, ◌-◌, ◌*◌, ◌≡◌, refl, sym, ap, ◌∙◌, Option, none, some, Result, ok, err, inl, inr, ltb,
  Bool-cases,
}
use csi_secret_age.Prelude.Maps.{Map, insert}
use csi_secret_age.Tree.{VaultTree}
use csi_secret_age.Vault.External.{
  ApiError, not_found, already_exists, conflict, Stored, SecretApi, Sealing, IsRefusal,
}
use csi_secret_age.Vault.{VaultError, data_key, max_retries, api_failed}
use csi_secret_age.Vault.Writing.{
  Attempt, return, again, after_create, after_update, create_with, update_with, attempt_at, attempt,
  sealed,
}
use csi_secret_age.Vault.Updating.{Idle, here, acts}

module _ (s : Sealing) (api : SecretApi s.Cipher) (others : ℕ → api.Cluster → api.Cluster)
    (fair : (n : ℕ) (c : api.Cluster) → api.Later c (others n c)) where
  open s use {Key, Cipher}
  open api use {Cluster, stored}

  -- Errors that are raised before anything is written, or by a write that was refused.
  abbrev pub IsUnwritten : {E : Type 0} → VaultError E → Type 0
  IsUnwritten (api_failed e) = IsRefusal e
  IsUnwritten e = Unit

  -- The cluster of an attempt that did not write.
  abbrev pub Quiet : {E : Type 0} → Cluster → Attempt s api others E → Type 0
  Quiet c (return (ok u) d) = Unit
  Quiet c (return (err e) d) = IsUnwritten e → Idle s api others fair c d
  Quiet c (again d) = Idle s api others fair c d

  create-Idle :
      (m : Map Cipher) (c c' d : Cluster) (x : ApiError)
      → api.create m c' ≡ (err x, d)
      → Idle s api others fair c c'
      → IsRefusal x
      → Idle s api others fair c d
  create-Idle m c c' d x e idle r =
      let same : c' ≡ d =
        sym (api.create_refused m c' x r (ap (λ (p : Result ApiError (Unit {0}) × Cluster). p.0) e))
        ∙ ap (λ (p : Result ApiError (Unit {0}) × Cluster). p.1) e in
      rw same at idle

  update-Idle :
      (sec : Stored Cipher) (c c' d : Cluster) (x : ApiError)
      → api.update sec c' ≡ (err x, d)
      → Idle s api others fair c c'
      → IsRefusal x
      → Idle s api others fair c d
  update-Idle sec c c' d x e idle r =
      let same : c' ≡ d =
        sym
          (api.update_refused sec c' x r (ap (λ (p : Result ApiError (Unit {0}) × Cluster). p.0) e))
        ∙ ap (λ (p : Result ApiError (Unit {0}) × Cluster). p.1) e in
      rw same at idle

  module _ (E : Type 0) where
    after_create-Quiet :
        (m : Map Cipher) (c c' : Cluster) (p : Result ApiError (Unit {0}) × Cluster)
        → api.create m c' ≡ p
        → Idle s api others fair c c'
        → Quiet {E = E} c (after_create s api others p)
    after_create-Quiet m c c' (ok u, d) e idle = tt
    after_create-Quiet m c c' (err already_exists, d) e idle =
        create-Idle m c c' d already_exists e idle tt
    after_create-Quiet m c c' (err x, d) e idle = create-Idle m c c' d _ e idle

    after_update-Quiet :
        (n : ℕ) (sec : Stored Cipher) (c c' : Cluster) (p : Result ApiError (Unit {0}) × Cluster)
        → api.update sec c' ≡ p
        → Idle s api others fair c c'
        → Quiet {E = E} c (after_update s api others n p)
    after_update-Quiet n sec c c' (ok u, d) e idle = tt
    after_update-Quiet n sec c c' (err conflict, d) e idle =
        let quiet : Idle s api others fair c d = update-Idle sec c c' d conflict e idle tt in
        elim (Bool-cases (ltb n (max_retries - 1))) [
          | inl more ↦ rw more quiet
          | inr last ↦ rw last (λ _. quiet)
        ]
    after_update-Quiet n sec c c' (err x, d) e idle = update-Idle sec c c' d _ e idle

  module _ {E : Type 0} (modifier : VaultTree → Result E VaultTree) (id : Key) where
    create_with-Quiet :
        (r : Result (VaultError E) Cipher) (c c' : Cluster)
        → Idle s api others fair c c'
        → Quiet c (create_with s api others modifier id r c')
    unfolding create_with
    create_with-Quiet (err e) c c' idle = λ _. idle
    create_with-Quiet (ok ct) c c' idle =
        after_create-Quiet E (sealed s api others ct) c c' _ refl idle

    update_with-Quiet :
        (n : ℕ) (r : Result (VaultError E) Cipher) (sec : Stored Cipher)
        (content : Option (Map Cipher)) (c c' : Cluster)
        → Idle s api others fair c c'
        → Quiet c (update_with s api others modifier id n r sec content c')
    unfolding update_with
    update_with-Quiet n (err e) sec content c c' idle = λ _. idle
    update_with-Quiet n (ok ct) sec none c c' idle = λ _. idle
    update_with-Quiet n (ok ct) sec (some m) c c' idle =
        after_update-Quiet E n (record sec { content = some (insert data_key ct m) }) c c' _ refl
          idle

    attempt_at-Quiet :
        (n : ℕ) (r : Result ApiError (Stored Cipher)) (c : Cluster)
        → Quiet c (attempt_at s api others modifier id n r c)
    unfolding attempt_at
    attempt_at-Quiet n (err not_found) c = create_with-Quiet _ c _ (acts here (2 * n + 1))
    attempt_at-Quiet n (ok sec) c = update_with-Quiet n _ sec _ c _ (acts here (2 * n + 1))
    attempt_at-Quiet n (err e) c = λ _. here

    pub attempt-Quiet :
        (n : ℕ) (c : Cluster) → Quiet (others (2 * n) c) (attempt s api others modifier id n c)
    unfolding attempt
    attempt-Quiet n c = attempt_at-Quiet n _ (others (2 * n) c)
