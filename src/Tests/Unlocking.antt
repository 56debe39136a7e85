-- ===== src/Tests/Unlocking.antt =====
-- Runs of Unlock and NewVaultManager of vault.go.
use csi_secret_age.Prelude.{[], ◌∷◌, ◌≡◌, refl, codes, some, ok, inl}
use csi_secret_age.Prelude.Maps.{lookup}
use csi_secret_age.Vault.{new_vault_manager, initial, prepare_unlock, commit_unlock}
use csi_secret_age.Vault.Locking.{
  Unlocking, Reach, here, next, prepare, commit, IsSound, Reach-IsSound, Reach-loaded,
  new_vault_manager-IsSound,
}
use csi_secret_age.Tests.Fake.{boxes, shelf}
use csi_secret_age.Tests.Vaults.{open_manager, before_save}

abbrev closed : Unlocking boxes shelf
closed = record { manager = initial boxes; waiting = [] }

abbrev opened : Unlocking boxes shelf
opened = record { manager = open_manager; waiting = 107 ∷ [] }

unlocking : Reach boxes shelf closed opened
unfolding prepare_unlock commit_unlock lookup
unlocking =
    next (next here (prepare (codes "key") before_save 107 refl refl)) (commit 107 (inl refl) refl)

closed-IsSound : IsSound boxes shelf closed
closed-IsSound = record { locked = λ h. refl; unlocked = λ h. cc; checked = λ id i. absurd i }

Reach-IsSound_example : IsSound boxes shelf opened
Reach-IsSound_example = Reach-IsSound boxes shelf unlocking closed-IsSound

second_call : Reach boxes shelf opened opened
unfolding commit_unlock
second_call = next here (commit 107 (inl refl) refl)

Reach-loaded_example : open_manager ≡ open_manager
Reach-loaded_example = Reach-loaded boxes shelf second_call refl

new_vault_manager-IsSound_example : IsSound boxes shelf (record {
  manager = new_vault_manager boxes shelf (some (ok (codes "key"))) before_save;
  waiting = [];
})
new_vault_manager-IsSound_example =
    new_vault_manager-IsSound boxes shelf (some (ok (codes "key"))) before_save

started : new_vault_manager boxes shelf (some (ok (codes "key"))) before_save ≡ open_manager
unfolding new_vault_manager lookup
started = refl
