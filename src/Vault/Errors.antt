-- ===== src/Vault/Errors.antt =====
-- Which errors the read, the modifier and the encryption of an attempt cannot have.
use csi_secret_age.Prelude.{
  ℕ, Text, ◌≡◌, ◌≢◌, refl, arith, Option, none, some, Result, ok, err, Bool-cases, inl, inr, ◌>>=◌,
}
use csi_secret_age.Tree.{VaultTree}
use csi_secret_age.Vault.External.{SecretApi, Sealing}
use csi_secret_age.Vault.{
  VaultError, foreign, modifier_failed, lift, lift_modifier, encrypt_tree, decrypt_tree,
  read_cipher,
}
use csi_secret_age.Vault.Writing.{modified}

module _ {E : Type 0} (x : VaultError E) (not_foreign : (t : Text) → foreign t ≢ x)
    (not_modifier : (e : E) → modifier_failed e ≢ x) where
  abbrev Raises : {A : Type 0} → Result (VaultError E) A → Type 0
  Raises r = r ≡ err x

  bind-Raises :
      {A B : Type 0} (r : Result (VaultError E) A) (k : A → Result (VaultError E) B)
      → ¬ Raises r
      → ((a : A) → ¬ Raises (k a))
      → ¬ Raises (r >>= k)
  bind-Raises (ok a) k h hs = hs a
  bind-Raises (err e) k h hs = λ q. h (let same : e ≡ x = ground arith in rw same refl)

  lift-Raises : {A : Type 0} (r : Result Text A) → ¬ Raises (lift r)
  lift-Raises (ok a) = λ h. cc
  lift-Raises (err t) = λ h. not_foreign t (ground arith)

  lift_modifier-Raises : {A : Type 0} (r : Result E A) → ¬ Raises (lift_modifier r)
  lift_modifier-Raises (ok a) = λ h. cc
  lift_modifier-Raises (err e) = λ h. not_modifier e (ground arith)

  module _ (s : Sealing) (api : SecretApi s.Cipher) (others : ℕ → api.Cluster → api.Cluster) where
    open s use {Key, Cipher}

    module _ (modifier : VaultTree → Result E VaultTree) (id : Key) where
      decrypt_tree-Raises : (ct : Cipher) → ¬ Raises (decrypt_tree s {E = E} id ct)
      unfolding decrypt_tree
      decrypt_tree-Raises ct = bind-Raises (lift (s.decrypt id ct)) _ (lift-Raises _) (λ reader.
          bind-Raises (lift (s.read_all reader)) _ (lift-Raises _) (λ plain. lift-Raises _))

      read_cipher-Raises : (old : Option Cipher) → ¬ Raises (read_cipher s {E = E} id old)
      unfolding read_cipher
      read_cipher-Raises none = λ h. cc
      read_cipher-Raises (some ct) = elim (Bool-cases (s.is_empty ct)) [
        | inl e ↦ rw e (λ h. cc)
        | inr e ↦ rw e (decrypt_tree-Raises ct)
      ]

      pub modified-Raises :
          (n : ℕ) (old : Option Cipher) → ¬ Raises (modified s api others modifier id n old)
      unfolding modified encrypt_tree
      modified-Raises n old = bind-Raises (read_cipher s id old) _ (read_cipher-Raises old) (λ t.
          bind-Raises (lift_modifier (modifier t)) _ (lift_modifier-Raises _)
            (λ t'. bind-Raises (lift (s.marshal t')) _ (lift-Raises _) (λ plain. lift-Raises _)))
