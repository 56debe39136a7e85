-- ===== src/Vault/Rounds.antt =====
-- How the rounds of `UpdateVault` end, and the theorem about the whole call.
use csi_secret_age.Prelude.{ℕ, zero, suc, ◌+◌, ◌*◌, ◌≡◌, refl, sym, ◌∙◌, some, Result, ok, err}
use csi_secret_age.Tree.{VaultTree}
use csi_secret_age.Vault.External.{SecretApi, Sealing}
use csi_secret_age.Vault.{VaultError, VaultManager, max_retries, loaded_key}
use csi_secret_age.Vault.Writing.{Saved, Attempt, return, again, attempt, update_loop, update_vault}
use csi_secret_age.Vault.Updating.{Idle, here, acts, Idle-trans, Committed, attempt_at-ok}
use csi_secret_age.Vault.Unwritten.{IsUnwritten, attempt-Quiet}

module _ (s : Sealing) (api : SecretApi s.Cipher) (others : ℕ → api.Cluster → api.Cluster)
    (fair : (n : ℕ) (c : api.Cluster) → api.Later c (others n c)) where
  open s use {Key, Cipher}
  open api use {Cluster, stored}

  module _ {E : Type 0} (modifier : VaultTree → Result E VaultTree) (id : Key) where
    attempt-ok :
        (n : ℕ) (c d : Cluster)
        → attempt s api others modifier id n c ≡ return (ok tt) d
        → Committed s api others fair E modifier id (others (2 * n) c) d
    unfolding attempt
    attempt-ok n c d h = attempt_at-ok s api others fair modifier id n _ (others (2 * n) c) d refl h

    Committed-later :
        {c d e : Cluster}
        → Idle s api others fair c d
        → Committed s api others fair E modifier id d e
        → Committed s api others fair E modifier id c e
    Committed-later idle done = record {
      before = done.before;
      others_only = Idle-trans s api others fair idle done.others_only;
      write = done.write;
      tree = done.tree;
      tree' = done.tree';
      read = done.read;
      changed = done.changed;
      sec = done.sec;
      written = done.written;
      now = done.now;
      reads_back = done.reads_back;
      same = done.same;
    }

    -- What a call that ends so has done to the cluster.
    abbrev Ends : Cluster → Saved s api others E → Type 0
    Ends c (ok u, d) = Committed s api others fair E modifier id c d
    Ends c (err e, d) = IsUnwritten s api others fair e → Idle s api others fair c d

    Ends-later :
        (c d : Cluster) (r : Saved s api others E)
        → Idle s api others fair c d
        → Ends d r
        → Ends c r
    Ends-later c d (ok u, e) idle done = Committed-later idle done
    Ends-later c d (err x, e) idle quiet =
        λ unwritten. Idle-trans s api others fair idle (quiet unwritten)

    next_round :
        (left n : ℕ) (c : Cluster) (a : Attempt s api others E)
        → attempt s api others modifier id n c ≡ a
        → ((d : Cluster) → Ends d (update_loop s api others modifier id left (n + 1) d))
        → Ends c (update_loop s api others modifier id (suc left) n c)
    unfolding update_loop
    next_round left n c (return (ok u) d) e rest =
        rw (e, update_loop) (Committed-later (acts here (2 * n)) (attempt-ok n c d e))
    next_round left n c (return (err x) d) e rest =
        rw (e, update_loop)
          (λ unwritten. Idle-trans s api others fair (acts here (2 * n)) (
            let q : IsUnwritten s api others fair x → Idle s api others fair (others (2 * n) c) d =
              rw e at (attempt-Quiet s api others fair modifier id n c) in
            q unwritten))
    next_round left n c (again d) e rest =
        let q : Idle s api others fair (others (2 * n) c) d =
          rw e at (attempt-Quiet s api others fair modifier id n c) in
        rw (e, update_loop)
          (Ends-later c d _ (Idle-trans s api others fair (acts here (2 * n)) q) (rest d))

    update_loop-Ends :
        (left n : ℕ) (c : Cluster) → Ends c (update_loop s api others modifier id left n c)
    update_loop-Ends zero n c = unfold update_loop in λ _. here
    update_loop-Ends (suc left) n c = next_round left n c _ refl (update_loop-Ends left (n + 1))

    -- A call that returns no error has changed the vault in one step, whatever other writers did
    -- during it: the tree that the modifier was given is the one that was stored just before the one
    -- write that the call made, and what that write stored decrypts to the modifier's result.
    pub update_vault-Committed :
        (m : VaultManager Key) (c d : Cluster)
        → loaded_key s m ≡ some id
        → update_vault s api others m modifier c ≡ (ok tt, d)
        → Committed s api others fair E modifier id c d
    unfolding update_vault
    update_vault-Committed m c d key h =
        let ends : Ends c (update_loop s api others modifier id max_retries 0 c) =
          update_loop-Ends max_retries 0 c in
        let run : update_loop s api others modifier id max_retries 0 c ≡ (ok tt, d) =
          sym (rw (key, update_vault)) ∙ h in
        rw run at ends

    -- A call that returns an error has written nothing, unless the error is that of an API request
    -- that failed without being refused: only the other clients have acted on the cluster.
    pub update_vault_unwritten :
        (m : VaultManager Key) (c d : Cluster) (e : VaultError E)
        → loaded_key s m ≡ some id
        → update_vault s api others m modifier c ≡ (err e, d)
        → IsUnwritten s api others fair e
        → Idle s api others fair c d
    unfolding update_vault
    update_vault_unwritten m c d e key h =
        let ends : Ends c (update_loop s api others modifier id max_retries 0 c) =
          update_loop-Ends max_retries 0 c in
        let run : update_loop s api others modifier id max_retries 0 c ≡ (err e, d) =
          sym (rw (key, update_vault)) ∙ h in
        rw run at ends
