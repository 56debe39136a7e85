-- ===== src/Vault/Locking.antt =====
-- The lock of the vault under concurrent calls of `Unlock`.
use csi_secret_age.Prelude.{
  Option, [], Result, err, ◌≢◌, Text, List, ◌∷◌, ◌≡◌, refl, ap, ◌∙◌, true, false, arith, none, some,
  ok, In, inl, inr, Bool-cases, >>=-eq-ok, ◌>>=◌,
}
use csi_secret_age.Vault.External.{SecretApi, Sealing}
use csi_secret_age.Vault.{
  initial, new_vault_manager, VaultError, VaultManager, parse_master_key, verify_identity,
  prepare_unlock, after_prepare, unlock, commit_unlock,
}

module _ (s : Sealing) (api : SecretApi s.Cipher) where
  open s use {Key}
  open api use {Cluster}

  -- The manager, and the keys of the calls of `Unlock` that have passed their checks and wait for
  -- the write lock.
  pub record Unlocking : Type 0 where
    pub manager : VaultManager Key
    pub waiting : List Key

  -- One call passes its checks, against whatever the cluster holds then, or one takes the lock.
  pub data Step (u : Unlocking) : Unlocking → Type 0 where
    prepare :
        {v : Unlocking} (master_key : Text) (c : Cluster) (id : Key)
        → prepare_unlock s api {E = Unit {0}} u.manager master_key c ≡ ok id
        → v ≡ record u { waiting = id ∷ u.waiting }
        → Step u v
    commit :
        {v : Unlocking} (id : Key)
        → In id u.waiting
        → v ≡ record u { manager = (commit_unlock s api {E = Unit {0}} id u.manager).1 }
        → Step u v

  pub data Reach (u : Unlocking) : Unlocking → Type 0 where
    here : Reach u u
    next : {v w : Unlocking} → Reach u v → Step v w → Reach u w

  -- A key that passed the checks: the master key parses to it and it opens the stored vault.
  pub record Checked (id : Key) : Type 0 where
    pub master_key : Text
    pub cluster : Cluster
    pub parsed : parse_master_key s {E = Unit {0}} master_key ≡ ok id
    pub verified : verify_identity s api {E = Unit {0}} id cluster ≡ ok tt

  pub prepare_unlock_checks :
      (m : VaultManager Key) (master_key : Text) (c : Cluster) (id : Key)
      → prepare_unlock s api {E = Unit {0}} m master_key c ≡ ok id
      → (parse_master_key s {E = Unit {0}} master_key >>= λ k.
          verify_identity s api {E = Unit {0}} k c >>= λ verified. ok k)
        ≡ ok id
  unfolding prepare_unlock
  prepare_unlock_checks m master_key c id h = elim (Bool-cases m.is_locked) [
    | inl locked ↦ rw (locked, prepare_unlock) at h
    | inr open' ↦ absurd (ground arith)
  ]

  prepare_unlock-Checked :
      (m : VaultManager Key) (master_key : Text) (c : Cluster) (id : Key)
      → prepare_unlock s api {E = Unit {0}} m master_key c ≡ ok id
      → Checked id
  unfolding prepare_unlock
  prepare_unlock-Checked m master_key c id h =
      let checks = prepare_unlock_checks m master_key c id h in
      let (k, parsed, rest) = >>=-eq-ok (parse_master_key s {E = Unit {0}} master_key) _ checks in
      let (u, verified, same) = >>=-eq-ok (verify_identity s api {E = Unit {0}} k c) _ rest in
      let key : k ≡ id = ground arith in
      record {
        master_key = master_key;
        cluster = c;
        parsed = rw key at parsed;
        verified = rw key at verified;
      }

  -- The manager is locked exactly as long as it has no key, and every key around was checked.
  pub record IsSound (u : Unlocking) : Type 0 where
    pub locked : u.manager.is_locked ≡ true → u.manager.identity ≡ none
    pub unlocked :
        u.manager.is_locked ≡ false → (id : Key) × (u.manager.identity ≡ some id) × Checked id
    pub checked : (id : Key) → In id u.waiting → Checked id

  commit_unlock_locked :
      (id : Key) (m : VaultManager Key)
      → m.is_locked ≡ true
      → (commit_unlock s api {E = Unit {0}} id m).1
        ≡ record { identity = some id; is_locked = false }
  unfolding commit_unlock
  commit_unlock_locked id m h = rw h

  commit_unlock_unlocked :
      (id : Key) (m : VaultManager Key)
      → m.is_locked ≡ false
      → (commit_unlock s api {E = Unit {0}} id m).1 ≡ m
  unfolding commit_unlock
  commit_unlock_unlocked id m h = ground arith

  after_prepare_changed :
      (r : Result (VaultError (Unit {0})) Key) (m : VaultManager Key)
      → (after_prepare s api r m).1 ≢ m
      → (id : Key) × (r ≡ ok id)
        × (m.is_locked ≡ true)
        × ((after_prepare s api r m).1 ≡ record { identity = some id; is_locked = false })
  unfolding after_prepare
  after_prepare_changed (err e) m h = absurd (h refl)
  after_prepare_changed (ok id) m h = elim (Bool-cases m.is_locked) [
    | inl locked ↦ (id, refl, locked, commit_unlock_locked id m locked)
    | inr open' ↦ absurd (h (commit_unlock_unlocked id m open'))
  ]

  -- A call that changes the manager found it locked, passed the checks, and loaded their key.
  pub unlock_changed :
      (m : VaultManager Key) (master_key : Text) (c : Cluster)
      → (unlock s api {E = Unit {0}} m master_key c).1 ≢ m
      → (id : Key) × (prepare_unlock s api {E = Unit {0}} m master_key c ≡ ok id)
        × (m.is_locked ≡ true)
        × ((unlock s api {E = Unit {0}} m master_key c).1
            ≡ record { identity = some id; is_locked = false })
  unfolding unlock
  unlock_changed m master_key c h = after_prepare_changed (prepare_unlock s api m master_key c) m h

  commit-IsSound :
      (m : VaultManager Key) (waiting : List Key) (id : Key)
      → In id waiting
      → IsSound (record { manager = m; waiting = waiting })
      → IsSound
          (record { manager = (commit_unlock s api {E = Unit {0}} id m).1; waiting = waiting })
  commit-IsSound m waiting id waits h = elim (Bool-cases m.is_locked) [
    | inl locked ↦ rw (commit_unlock_locked id m locked) (record {
      locked = λ q. cc;
      unlocked = λ _. (id, refl, h.checked id waits);
      checked = h.checked;
    })
    | inr done ↦ rw (commit_unlock_unlocked id m done) h
  ]

  Step-IsSound : {u v : Unlocking} → Step u v → IsSound u → IsSound v
  Step-IsSound {u} {v} (prepare master_key c id passes e) h =
      rw e (record { locked = h.locked; unlocked = h.unlocked; checked = λ k i. in_waiting k i })
    where
      in_waiting : (k : Key) → In k (id ∷ u.waiting) → Checked k
      in_waiting k (inl q) = rw q (prepare_unlock-Checked u.manager master_key c id passes)
      in_waiting k (inr i) = h.checked k i
  Step-IsSound {u} {v} (commit id waits e) h = rw e (commit-IsSound u.manager u.waiting id waits h)

  Step-loaded : {u v : Unlocking} → Step u v → u.manager.is_locked ≡ false → v.manager ≡ u.manager
  Step-loaded {u} {v} (prepare master_key c id passes e) h = ap (λ (w : Unlocking). w.manager) e
  Step-loaded {u} {v} (commit id waits e) h =
      ap (λ (w : Unlocking). w.manager) e ∙ commit_unlock_unlocked id u.manager h

  -- Whatever calls of `Unlock` run at once, and in whatever order they take the lock, the vault has
  -- a key exactly when it is unlocked, and that key came from a master key that parses to it and
  -- opened what was stored when its call looked.
  pub Reach-IsSound : {u v : Unlocking} → Reach u v → IsSound u → IsSound v
  Reach-IsSound here h = h
  Reach-IsSound (next r st) h = Step-IsSound st (Reach-IsSound r h)

  -- Once the vault is unlocked no call of `Unlock` changes the manager: the key is never replaced.
  pub Reach-loaded :
      {u v : Unlocking} → Reach u v → u.manager.is_locked ≡ false → v.manager ≡ u.manager
  Reach-loaded here h = refl
  Reach-loaded {u} (next {v} r st) h =
      let same = Reach-loaded r h in
      Step-loaded st (ap (λ (m : VaultManager Key). m.is_locked) same ∙ h) ∙ same

  initial-IsSound : IsSound (record { manager = initial s; waiting = [] })
  initial-IsSound = record { locked = λ h. refl; unlocked = λ h. cc; checked = λ id i. elim i [ ] }

  after_prepare-IsSound :
      (r : Result (VaultError (Unit {0})) Key)
      → ((id : Key) → r ≡ ok id → Checked id)
      → IsSound (record { manager = (after_prepare s api r (initial s)).1; waiting = [] })
  unfolding after_prepare
  after_prepare-IsSound (err e) h = initial-IsSound
  after_prepare-IsSound (ok id) h =
      let waiting : IsSound (record { manager = initial s; waiting = id ∷ [] }) = record {
        locked = λ h. refl;
        unlocked = λ h. cc;
        checked = only_one;
      } in
      let done = commit-IsSound (initial s) (id ∷ []) id (inl refl) waiting in
      record { locked = done.locked; unlocked = done.unlocked; checked = λ k i. elim i [ ] }
    where
      only_one : (k : Key) → In k (id ∷ []) → Checked k
      only_one k (inl e) = rw e (h id refl)
      only_one k (inr i) = elim i [ ]

  -- Whatever the key provider returned at start-up, a failure or an empty key included, the manager
  -- that `NewVaultManager` makes has a key exactly when it is unlocked, and then that key was
  -- checked against the stored vault.
  pub new_vault_manager-IsSound :
      (provided : Option (Result Text Text)) (c : Cluster)
      → IsSound (record { manager = new_vault_manager s api provided c; waiting = [] })
  unfolding new_vault_manager unlock
  new_vault_manager-IsSound none c = initial-IsSound
  new_vault_manager-IsSound (some (err e)) c = initial-IsSound
  new_vault_manager-IsSound (some (ok [])) c = initial-IsSound
  new_vault_manager-IsSound (some (ok (x ∷ key))) c =
      after_prepare-IsSound (prepare_unlock s api (initial s) (x ∷ key) c)
        (λ id h. prepare_unlock-Checked (initial s) (x ∷ key) c id h)
