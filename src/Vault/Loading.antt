-- ===== src/Vault/Loading.antt =====
-- What is encrypted under a key is read back under it.
use csi_secret_age.Prelude.{ℕ, Text, ◌≡◌, arith, some, Result, ok, err, >>=-eq-ok}
use csi_secret_age.Tree.{VaultTree}
use csi_secret_age.Vault.External.{Sealing, SameTree}
use csi_secret_age.Vault.{lift, encrypt_tree, decrypt_tree, read_cipher}

pub lift-eq-ok : {E A : Type 0} (r : Result Text A) {a : A} → lift {E = E} r ≡ ok a → r ≡ ok a
lift-eq-ok (ok b) h = ground arith
lift-eq-ok (err e) h = cc

module _ (s : Sealing) {E : Type 0} where
  open s use {Key, Cipher}

  pub decrypt_of :
      (id : Key) (ct : Cipher) (t u : VaultTree) (plain : s.Plain) (reader : s.Reader)
      → s.decrypt id ct ≡ ok reader
      → s.read_all reader ≡ ok plain
      → s.unmarshal plain ≡ ok u
      → decrypt_tree s {E = E} id ct ≡ ok u
  unfolding decrypt_tree
  decrypt_of id ct t u plain reader d r e = rw d (rw r (rw e))

  -- A tree that was encrypted to a key is read with it, up to the order of the map.
  pub read_cipher-encrypt_tree :
      (n : ℕ) (t : VaultTree) (id : Key) (ct : Cipher)
      → encrypt_tree s {E = E} n t id ≡ ok ct
      → (u : VaultTree) × (read_cipher s {E = E} id (some ct) ≡ ok u) × SameTree u t
  unfolding encrypt_tree read_cipher
  read_cipher-encrypt_tree n t id ct h =
      let (plain, marshalled, sealed) = >>=-eq-ok (lift (s.marshal t)) _ h in
      let (u, parsed, same) = s.unmarshal-marshal t plain (lift-eq-ok {E = E} _ marshalled) in
      let (full, opening) = s.decrypt-encrypt n id plain ct (lift-eq-ok {E = E} _ sealed) in
      let (reader, opened, read) = opening in
      (u, rw full (decrypt_of id ct t u plain reader opened read parsed), same)
