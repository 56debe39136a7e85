-- ===== src/Vault/Reading.antt =====
-- What `LoadAndDecrypt` reads of a Secret, in terms of what `UpdateVault` reads of it.
use csi_secret_age.Vault.Updating.{Committed}
use csi_secret_age.Prelude.{
  ℕ, Result, ◌≡◌, refl, arith, Option, none, some, ok, >>=-eq-ok, Bool-cases, true, false, inl, inr,
}
use csi_secret_age.Tree.{VaultTree, entries, new_tree, normalize_keys}
use csi_secret_age.Tree.Settled.{IsDistinct}
use csi_secret_age.Vault.External.{Stored, SecretApi, Sealing}
use csi_secret_age.Vault.{
  VaultManager, secret_data, lift, decrypt_tree, read_cipher, loaded_key, load_with,
  load_and_decrypt,
}
use csi_secret_age.Vault.Loading.{lift-eq-ok, decrypt_of}

module _ (s : Sealing) where
  open s use {Key, Cipher}

  -- The three steps of a decryption that succeeds.
  pub record Decrypted (id : Key) (ct : Cipher) (t : VaultTree) : Type 0 where
    pub reader : s.Reader
    pub plain : s.Plain
    pub opened : s.decrypt id ct ≡ ok reader
    pub read : s.read_all reader ≡ ok plain
    pub parsed : s.unmarshal plain ≡ ok t

  decrypt_tree-Decrypted :
      (E : Type 0) (id : Key) (ct : Cipher) (t : VaultTree)
      → decrypt_tree s {E = E} id ct ≡ ok t
      → Decrypted id ct t
  unfolding decrypt_tree
  decrypt_tree-Decrypted E id ct t h =
      let (reader, opened, h1) = >>=-eq-ok (lift {E = E} (s.decrypt id ct)) _ h in
      let (plain, read, h2) = >>=-eq-ok (lift {E = E} (s.read_all reader)) _ h1 in
      record {
        reader = reader;
        plain = plain;
        opened = lift-eq-ok {E = E} _ opened;
        read = lift-eq-ok {E = E} _ read;
        parsed = lift-eq-ok {E = E} _ h2;
      }

  -- What a tree was read from: nothing, or a ciphertext.
  pub data Read (id : Key) (old : Option Cipher) (t : VaultTree) : Type 0 where
    nothing : old ≡ none → t ≡ new_tree → Read id old t
    vacant : (ct : Cipher) → old ≡ some ct → s.is_empty ct ≡ true → t ≡ new_tree → Read id old t
    full : (ct : Cipher) → old ≡ some ct → s.is_empty ct ≡ false → Decrypted id ct t → Read id old t

  pub read_cipher-Read :
      (E : Type 0) (id : Key) (old : Option Cipher) (t : VaultTree)
      → read_cipher s {E = E} id old ≡ ok t
      → Read id old t
  unfolding read_cipher
  read_cipher-Read E id none t h = nothing refl (ground arith)
  read_cipher-Read E id (some ct) t h = elim (Bool-cases (s.is_empty ct)) [
    | inl e ↦ vacant ct refl e (ground arith)
    | inr e ↦ full ct refl e (decrypt_tree-Decrypted E id ct t (rw (e, read_cipher) at h))
  ]

  -- The nodes of a tree that was read are a map of Go, if those of every JSON text are.
  pub Read-IsDistinct :
      ((plain : s.Plain) (u : VaultTree) → s.unmarshal plain ≡ ok u → IsDistinct (entries u))
      → (id : Key) (old : Option Cipher) (t : VaultTree) → Read id old t
      → IsDistinct (entries t)
  Read-IsDistinct distinct id old t (nothing e new) = rw new tt
  Read-IsDistinct distinct id old t (vacant ct e empty new) = rw new tt
  Read-IsDistinct distinct id old t (full ct e filled d) = distinct d.plain t d.parsed

  module _ (api : SecretApi Cipher) (F : Type 0) where
    -- A Secret from which `UpdateVault` reads a tree is loaded as that tree with normalised keys.
    pub load_and_decrypt-Read :
        (m : VaultManager Key) (id : Key) (c : api.Cluster) (sec : Stored Cipher) (t : VaultTree)
        → loaded_key s m ≡ some id
        → api.get c ≡ ok sec
        → Read id (secret_data sec.content) t
        → load_and_decrypt s api {E = F} m c ≡ ok (normalize_keys t)
    unfolding load_and_decrypt load_with normalize_keys
    load_and_decrypt-Read m id c sec t key found (nothing e new) =
        rw (key, load_and_decrypt) (rw found (rw (e, load_with) (rw new refl)))
    load_and_decrypt-Read m id c sec t key found (vacant ct e empty new) =
        rw (key, load_and_decrypt) (rw found (rw (e, load_with) (rw empty (rw new refl))))
    load_and_decrypt-Read m id c sec t key found (full ct e filled d) =
        let read : decrypt_tree s {E = F} id ct ≡ ok t =
          decrypt_of s id ct t t d.plain d.reader d.opened d.read d.parsed in
        rw (key, load_and_decrypt) (rw found (rw (e, load_with) (rw filled (rw read refl))))

module _ (s : Sealing) (api : SecretApi s.Cipher) (others : ℕ → api.Cluster → api.Cluster)
    (fair : (n : ℕ) (c : api.Cluster) → api.Later c (others n c)) where
  -- As long as the Secret is the one that a committed change wrote, what it wrote is loaded.
  pub load_and_decrypt-Committed :
      (E F : Type 0) (modifier : VaultTree → Result E VaultTree) (m : VaultManager s.Key)
      (id : s.Key) (c d e : api.Cluster) (sec : Stored s.Cipher)
      → loaded_key s m ≡ some id
      → (w : Committed s api others fair E modifier id c d) → api.get e ≡ ok sec
      → api.stored e ≡ api.stored d
      → Read s id (secret_data w.sec.content) w.now
        × (load_and_decrypt s api {E = F} m e ≡ ok (normalize_keys w.now))
  load_and_decrypt-Committed E F modifier m id c d e sec loaded w got unchanged =
      let same : sec ≡ w.sec = ground (arith, api.get_found e sec got, unchanged, w.written) in
      let read : Read s id (secret_data w.sec.content) w.now =
        read_cipher-Read s E id (secret_data w.sec.content) w.now w.reads_back in
      (read, load_and_decrypt-Read s api F m id e w.sec w.now loaded (rw (← same) got) read)
