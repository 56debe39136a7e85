-- ===== src/Vault/Ending.antt =====
-- How the loop of `UpdateVault` ends.
use csi_secret_age.Prelude.{ℕ, zero, suc, ◌+◌, ◌<◌, ◌≡◌, refl, arith, some, Result, err, inl, inr}
use csi_secret_age.Tree.{VaultTree}
use csi_secret_age.Vault.External.{conflict, SecretApi, Sealing}
use csi_secret_age.Vault.{VaultError, gave_up, api_failed, VaultManager, loaded_key}
use csi_secret_age.Vault.Writing.{Attempt, return, attempt, update_loop, update_vault, Saved}
use csi_secret_age.Vault.Losing.{LostCreate, LostUpdate, LostRound, Lost, fresh, retry}
use csi_secret_age.Vault.Outcomes.{
  GaveUp, Outcome, lost_create, lost_update, last_update, answers, attempt-Outcome,
}

module _ (s : Sealing) (api : SecretApi s.Cipher) (others : ℕ → api.Cluster → api.Cluster) where
  open s use {Key, Cipher}
  open api use {Cluster}

  module _ {E : Type 0} (modifier : VaultTree → Result E VaultTree) (id : Key) where
    -- How a call with this key ends: with the answer of the first attempt that did not lose, which is
    -- not the error of the loop, or after five that lost, with that error where the fifth lost its
    -- Create and with the conflict where it lost its Update.
    pub data Ended (c : Cluster) : Saved s api others E → Type 0 where
      answered :
          {k : ℕ} {d e : Cluster} {r : Result (VaultError E) (Unit {0})}
          → k < 5
          → Lost s api others modifier id c k d
          → ((f : Cluster) → ¬ LostRound s api others modifier id k d f)
          → attempt s api others modifier id k d ≡ return r e
          → ¬ GaveUp r
          → Ended c (r, e)
      exhausted :
          {d e : Cluster}
          → Lost s api others modifier id c 4 d
          → LostCreate s api others modifier id 4 d e
          → Ended c (err gave_up, e)
      conflicted :
          {d e : Cluster}
          → Lost s api others modifier id c 4 d
          → LostUpdate s api others modifier id 4 d e
          → Ended c (err (api_failed conflict), e)

    loop-Ended :
        {c : Cluster} (left n : ℕ) (d : Cluster) (a : Attempt s api others E)
        → Outcome s api others modifier id n d a
        → Lost s api others modifier id c n d
        → n + suc left ≡ 5
        → attempt s api others modifier id n d ≡ a
        → Ended c (update_loop s api others modifier id (suc left) n d)
    unfolding update_loop
    loop-Ended left n d a (answers won stays) lost h ran =
        rw (ran, update_loop) (answered (omega arith) lost won ran stays)
    loop-Ended left n d a (last_update end round) lost h ran =
        let last : n ≡ 4 = omega arith in
        rw (ran, update_loop) (conflicted (rw last at lost) (rw last at round))
    loop-Ended zero n d a (lost_update more round) lost h ran = absurd (omega arith)
    loop-Ended zero n d a (lost_create round) lost h ran =
        let last : n ≡ 4 = omega arith in
        rw (ran, update_loop) (exhausted (rw last at lost) (rw last at round))
    loop-Ended (suc left) n d a (lost_update {d = e} more round) lost h ran =
        rw (ran, update_loop)
          (loop-Ended left (n + 1) e _ (attempt-Outcome s api others modifier id (n + 1) e)
            (retry lost (inr round)) (omega arith) refl)
    loop-Ended (suc left) n d a (lost_create {d = e} round) lost h ran =
        rw (ran, update_loop)
          (loop-Ended left (n + 1) e _ (attempt-Outcome s api others modifier id (n + 1) e)
            (retry lost (inl round)) (omega arith) refl)

    -- A call with a loaded key always ends, after at most five attempts. An attempt loses when it
    -- found no Secret and its Create is told that there is one, or when its Update is told of a
    -- conflict. The first that does not lose answers, and never with the error that the loop gave
    -- up. When all five lose, the call ends with that error if the fifth lost its Create, and with
    -- the conflict if it lost its Update.
    pub update_vault-Ended :
        (m : VaultManager Key) (c : Cluster)
        → loaded_key s m ≡ some id
        → Ended c (update_vault s api others m modifier c)
    unfolding update_vault
    update_vault-Ended m c key =
        rw (key, update_vault)
          (loop-Ended 4 0 c _ (attempt-Outcome s api others modifier id 0 c) fresh refl refl)
