-- ===== src/Vault/Losing.antt =====
-- The attempts of `UpdateVault` that lose against another writer, by what the API answers.
use csi_secret_age.Prelude.{
  ℕ, suc, ◌+◌, ◌<◌, ◌*◌, ◌≡◌, refl, ap, ◌∙◌, arith, Option, none, some, Result, ok, err, ◌⊎◌, inl,
  inr, >>=-eq-ok,
}
use csi_secret_age.Prelude.Maps.{Map, insert}
use csi_secret_age.Tree.{VaultTree}
use csi_secret_age.Vault.External.{not_found, already_exists, conflict, Stored, SecretApi, Sealing}
use csi_secret_age.Vault.{data_key, lift_modifier, encrypt_tree, read_cipher}
use csi_secret_age.Vault.Writing.{
  again, modified, create_with, update_with, attempt_at, attempt, update_loop, sealed,
}
use csi_secret_age.Vault.Updating.{held_cipher, lift_modifier-eq-ok}

module _ (s : Sealing) (api : SecretApi s.Cipher) (others : ℕ → api.Cluster → api.Cluster) where
  open s use {Key, Cipher}
  open api use {Cluster}

  -- What attempt `n` reads, and what it writes on.
  abbrev pub at_read : ℕ → Cluster → Cluster
  at_read n c = others (2 * n) c

  abbrev pub at_write : ℕ → Cluster → Cluster
  at_write n c = others (2 * n + 1) (others (2 * n) c)

  module _ {E : Type 0} (modifier : VaultTree → Result E VaultTree) (id : Key) where
    -- The read, the modifier and the encryption of attempt `n` succeed on what is stored.
    pub record Writes (n : ℕ) (o : Option (Stored Cipher)) (ct : Cipher) : Type 0 where
      pub tree : VaultTree
      pub tree' : VaultTree
      pub read : read_cipher s {E = E} id (held_cipher o) ≡ ok tree
      pub changed : modifier tree ≡ ok tree'
      pub encrypted : encrypt_tree s {E = E} n tree' id ≡ ok ct

    pub modified-Writes :
        (n : ℕ) (o : Option (Stored Cipher)) (ct : Cipher)
        → Writes n o ct
        → modified s api others modifier id n (held_cipher o) ≡ ok ct
    unfolding modified
    modified-Writes n o ct w = rw w.read (rw w.changed w.encrypted)

    pub Writes-modified :
        (n : ℕ) (o : Option (Stored Cipher)) (ct : Cipher)
        → modified s api others modifier id n (held_cipher o) ≡ ok ct
        → Writes n o ct
    unfolding modified
    Writes-modified n o ct h =
        let (t, read, h1) = >>=-eq-ok (read_cipher s {E = E} id (held_cipher o)) _ h in
        let (t', changed, h2) = >>=-eq-ok (lift_modifier (modifier t)) _ h1 in
        record {
          tree = t;
          tree' = t';
          read = read;
          changed = lift_modifier-eq-ok (modifier t) changed;
          encrypted = h2;
        }

    -- The attempt found no Secret, and somebody created it before the attempt did.
    pub record LostCreate (n : ℕ) (c d : Cluster) : Type 0 where
      pub missing : api.get (at_read n c) ≡ err not_found
      pub cipher : Cipher
      pub writes : Writes n none cipher
      pub taken : api.create (sealed s api others cipher) (at_write n c) ≡ (err already_exists, d)

    -- The attempt read the Secret, and somebody wrote it before the attempt did.
    pub record LostUpdate (n : ℕ) (c d : Cluster) : Type 0 where
      pub sec : Stored Cipher
      pub content : Map Cipher
      pub found : api.get (at_read n c) ≡ ok sec
      pub filled : sec.content ≡ some content
      pub cipher : Cipher
      pub writes : Writes n (some sec) cipher
      pub stale :
          api.update (record sec { content = some (insert data_key cipher content) }) (at_write n c)
          ≡ (err conflict, d)

    abbrev pub LostRound : ℕ → Cluster → Cluster → Type 0
    LostRound n c d = LostCreate n c d ⊎ LostUpdate n c d

    -- The first `k` attempts lost.
    pub data Lost (c : Cluster) : ℕ → Cluster → Type 0 where
      fresh : Lost c 0 c
      retry : {k : ℕ} {d e : Cluster} → Lost c k d → LostRound k d e → Lost c (k + 1) e

    LostRound-again :
        (n : ℕ) (c d : Cluster)
        → n < 4
        → LostRound n c d
        → attempt s api others modifier id n c ≡ again d
    unfolding attempt attempt_at create_with update_with
    LostRound-again n c d few (inl l) =
        rw l.missing (rw (modified-Writes n none l.cipher l.writes) (rw l.taken refl))
    LostRound-again n c d few (inr l) = rw l.found (
        rw (modified-Writes n (some l.sec) l.cipher l.writes)
          (rw l.filled (rw l.stale (ground arith))))

    loop_again :
        (left n : ℕ) (c d : Cluster)
        → attempt s api others modifier id n c ≡ again d
        → update_loop s api others modifier id (suc left) n c
          ≡ update_loop s api others modifier id left (n + 1) d
    unfolding update_loop
    loop_again left n c d h = rw (h, update_loop) refl

    -- As long as fewer than five attempts lost, the loop goes on with the next one.
    pub loop_resumes :
        {c d : Cluster} {k : ℕ} (left l : ℕ)
        → Lost c k d
        → k < 5
        → l ≡ k + left
        → update_loop s api others modifier id l 0 c ≡ update_loop s api others modifier id left k d
    loop_resumes {c} left l fresh few h =
        let same : l ≡ left = omega arith in
        ap (λ (x : ℕ). update_loop s api others modifier id x 0 c) same
    loop_resumes {c} left l (retry {k} {d} {e} lost round) few h =
        loop_resumes (suc left) l lost (omega arith) (omega arith)
        ∙ loop_again left k d e (LostRound-again k d e (omega arith) round)
