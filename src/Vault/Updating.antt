-- ===== src/Vault/Updating.antt =====
-- `UpdateVault` against other writers.
use csi_secret_age.Prelude.{
  ℕ, [], ◌+◌, ◌*◌, Text, ◌≡◌, refl, ap, ◌∙◌, arith, Option, none, some, Result, ok, err, >>=-eq-ok,
  ==_refl,
}
use csi_secret_age.Prelude.Maps.{Map, insert, lookup-insert}
use csi_secret_age.Tree.{VaultTree}
use csi_secret_age.Vault.External.{
  ApiError, not_found, already_exists, conflict, Stored, SecretApi, Sealing, SameTree,
}
use csi_secret_age.Vault.{
  VaultError, data_key, secret_data, lift_modifier, encrypt_tree, read_cipher,
}
use csi_secret_age.Vault.Loading.{read_cipher-encrypt_tree}
use csi_secret_age.Vault.Writing.{
  return, after_create, after_update, modified, create_with, update_with, attempt_at, sealed,
}

abbrev pub stored_cipher {ℓ} : {C : Type ℓ} → Option (Map C) → Option C
stored_cipher m = secret_data m

-- The ciphertext in a Secret that may not exist.
abbrev pub held_cipher : {C : Type 0} → Option (Stored C) → Option C
held_cipher none = none
held_cipher (some sec) = secret_data sec.content

pub lift_modifier-eq-ok :
    {E A : Type 0} (r : Result E A) {a : A} → lift_modifier r ≡ ok a → r ≡ ok a
lift_modifier-eq-ok (ok b) h = ground arith
lift_modifier-eq-ok (err e) h = cc

module _ (s : Sealing) (api : SecretApi s.Cipher) (others : ℕ → api.Cluster → api.Cluster)
    (fair : (n : ℕ) (c : api.Cluster) → api.Later c (others n c)) where
  open s use {Key, Cipher}
  open api use {Cluster, stored}

  -- Nothing but what the other clients did.
  pub data Idle (c : Cluster) : Cluster → Type 0 where
    here : Idle c c
    acts : {d : Cluster} → Idle c d → (n : ℕ) → Idle c (others n d)

  pub Idle-trans : {c d e : Cluster} → Idle c d → Idle d e → Idle c e
  Idle-trans h here = h
  Idle-trans h (acts k n) = acts (Idle-trans h k) n

  -- One call of the API that wrote the Secret.
  pub data Write (before final : Cluster) : Type 0 where
    created :
        (m : Map Cipher)
        → (api.create m before).0 ≡ ok tt
        → (api.create m before).1 ≡ final
        → Write before final
    updated :
        (sec : Stored Cipher)
        → (api.update sec before).0 ≡ ok tt
        → (api.update sec before).1 ≡ final
        → Write before final

  -- From `start` to `final` the change was made in one step, between what others did: the tree that
  -- the modifier was given is the one stored just before the only write, and the tree stored after
  -- it is the modifier's result.
  pub record Committed (E : Type 0) (modifier : VaultTree → Result E VaultTree) (id : Key)
      (start final : Cluster) : Type 0 where
    pub before : Cluster
    pub others_only : Idle start before
    pub write : Write before final
    pub tree : VaultTree
    pub tree' : VaultTree
    pub read : read_cipher s {E = E} id (held_cipher (stored before)) ≡ ok tree
    pub changed : modifier tree ≡ ok tree'
    pub sec : Stored Cipher
    pub written : stored final ≡ some sec
    pub now : VaultTree
    pub reads_back : read_cipher s {E = E} id (secret_data sec.content) ≡ ok now
    pub same : SameTree now tree'

  module _ {E : Type 0} (modifier : VaultTree → Result E VaultTree) (id : Key) where
    modified-ok :
        (n : ℕ) (old : Option Cipher) (ct : Cipher)
        → modified s api others modifier id n old ≡ ok ct
        → (t : VaultTree) × (t' : VaultTree) × (read_cipher s {E = E} id old ≡ ok t)
          × (modifier t ≡ ok t')
          × (encrypt_tree s {E = E} n t' id ≡ ok ct)
    unfolding modified
    modified-ok n old ct h =
        let (t, read, rest) = >>=-eq-ok (read_cipher s {E = E} id old) _ h in
        let (t', changed, sealing) = >>=-eq-ok (lift_modifier (modifier t)) _ rest in
        (t, t', read, lift_modifier-eq-ok (modifier t) changed, sealing)

    -- What a write of the modified tree leaves to show.
    committed :
        (n : ℕ) (ct : Cipher) (c before d : Cluster) (old : Option (Stored Cipher)) (m : Map Cipher)
        (v : Text)
        → Idle c before
        → Write before d
        → stored before ≡ old
        → modified s api others modifier id n (held_cipher old) ≡ ok ct
        → stored d ≡ some (record { content = some (insert data_key ct m); resource_version = v })
        → Committed E modifier id c d
    committed n ct c before d old m v idle write held made now =
        let (t, t', read, changed, sealing) = modified-ok n (held_cipher old) ct made in
        let (u, opened, same) = read_cipher-encrypt_tree s n t' id ct sealing in
        record {
          before = before;
          others_only = idle;
          write = write;
          tree = t;
          tree' = t';
          read = rw held read;
          changed = changed;
          sec = record { content = some (insert data_key ct m); resource_version = v };
          written = now;
          now = u;
          reads_back = rw (lookup-insert data_key data_key ct m) (rw (==_refl data_key) opened);
          same = same;
        }

    after_create-ok :
        (p : Result ApiError (Unit {0}) × Cluster) (d : Cluster)
        → after_create s api others {E = E} p ≡ return (ok tt) d
        → (p.0 ≡ ok tt) × (p.1 ≡ d)
    after_create-ok (ok u, c) d h = (refl, ground arith)
    after_create-ok (err already_exists, c) d h = cc
    after_create-ok (err e, c) d h = cc

    after_update-ok :
        (n : ℕ) (p : Result ApiError (Unit {0}) × Cluster) (d : Cluster)
        → after_update s api others {E = E} n p ≡ return (ok tt) d
        → (p.0 ≡ ok tt) × (p.1 ≡ d)
    after_update-ok n (ok u, c) d h = (refl, ground arith)
    after_update-ok n (err conflict, c) d h = absurd (ground arith)
    after_update-ok n (err e, c) d h = cc

    create_with-ok :
        (n : ℕ) (r : Result (VaultError E) Cipher) (c d : Cluster)
        → modified s api others modifier id n none ≡ r
        → create_with s api others modifier id r (others (2 * n + 1) c) ≡ return (ok tt) d
        → Committed E modifier id c d
    unfolding create_with
    create_with-ok n (err e) c d m h = cc
    create_with-ok n (ok ct) c d m h =
        let before = others (2 * n + 1) c in
        let (done, final) = after_create-ok (api.create (sealed s api others ct) before) d h in
        let (missing, there) = api.create_done (sealed s api others ct) before done in
        let (v, now) = there in
        committed n ct c before d none [] v (acts here (2 * n + 1))
          (created (sealed s api others ct) done final) missing m (rw (← final) now)

    update_with-ok :
        (n : ℕ) (r : Result (VaultError E) Cipher) (sec : Stored Cipher)
        (content : Option (Map Cipher)) (c d : Cluster)
        → stored c ≡ some sec
        → modified s api others modifier id n (secret_data sec.content) ≡ r
        → update_with s api others modifier id n r sec content (others (2 * n + 1) c)
          ≡ return (ok tt) d
        → Committed E modifier id c d
    unfolding update_with
    update_with-ok n (err e) sec content c d found m h = cc
    update_with-ok n (ok ct) sec none c d found m h = cc
    update_with-ok n (ok ct) sec (some old) c d found m h =
        let before = others (2 * n + 1) c in
        let sec' : Stored Cipher = record sec { content = some (insert data_key ct old) } in
        let (done, final) = after_update-ok n (api.update sec' before) d h in
        let (prior, there) = api.update_done sec' before done in
        let (held, at, version) = prior in
        let (v, now) = there in
        let unchanged : held ≡ sec =
          api.version_fixes c before sec held (fair (2 * n + 1) c) found at version in
        committed n ct c before d (some sec) old v (acts here (2 * n + 1)) (updated sec' done final)
          (at ∙ ap (λ x. some x) unchanged) m (rw (← final) now)

    pub attempt_at-ok :
        (n : ℕ) (r : Result ApiError (Stored Cipher)) (c d : Cluster)
        → api.get c ≡ r
        → attempt_at s api others modifier id n r c ≡ return (ok tt) d
        → Committed E modifier id c d
    unfolding attempt_at
    attempt_at-ok n (err not_found) c d g h = create_with-ok n _ c d refl h
    attempt_at-ok n (ok sec) c d g h = update_with-ok n _ sec _ c d (api.get_found c sec g) refl h
    attempt_at-ok n (err e) c d g h = cc
