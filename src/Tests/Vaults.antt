-- ===== src/Tests/Vaults.antt =====
-- Runs of vault.go: saves that meet another writer.
use csi_secret_age.Prelude.{
  arith, ℕ, [], ◌∷◌, ◌≡◌, refl, ◌↔◌, inr, true, false, codes, ◌==◌, Option, none, some, ok, err,
}
use csi_secret_age.Prelude.Maps.{Map, lookup, insert}
use csi_secret_age.Tree.{VaultTree, Conflict, exists_as_folder, put_node}
use csi_secret_age.Paths.{normalize_path}
use csi_secret_age.Vault.{
  modifier_failed, nil_map_write, VaultManager, data_key, encrypt_tree, read_cipher, loaded_key,
  decrypt_tree,
}
use csi_secret_age.Vault.External.{SameTree}
use csi_secret_age.Vault.Writing.{update_vault}
use csi_secret_age.Vault.Updating.{Idle, Committed}
use csi_secret_age.Vault.Loading.{read_cipher-encrypt_tree}
use csi_secret_age.Vault.Rounds.{update_vault-Committed, update_vault_unwritten}
use csi_secret_age.Vault.Losing.{LostUpdate, Lost, fresh, retry, Writes}
use csi_secret_age.Vault.Progress.{Accepts, present, update_vault-ok}
use csi_secret_age.Vault.Crash.{Crashes, update_vault-nil_map}
use csi_secret_age.Tests.Fake.{Box, boxes, Shelf, shelf, stamp, touch, others, others-Later}

abbrev pub old_tree : VaultTree
old_tree = record {
  nodes = some (
      (codes "/app", record { value = []; is_folder = true })
      ∷ (codes "/db/password", record { value = codes "s3cret"; is_folder = false })
      ∷ []);
}

abbrev pub new_nodes : VaultTree
new_nodes = record {
  nodes = some (
      (codes "/app", record { value = []; is_folder = true })
      ∷ (codes "/db/password", record { value = codes "s3cret"; is_folder = false })
      ∷ (codes "/app/key", record { value = codes "v"; is_folder = false })
      ∷ []);
}

abbrev pub held : ℕ → VaultTree → Option (Map Box)
held n t = some ((data_key, record { key = 107; draw = n; tree = t }) ∷ [])

abbrev pub open_manager : VaultManager ℕ
open_manager = record { identity = some 107; is_locked = false }

abbrev pub before_save : Shelf
before_save = some (record { content = held 0 old_tree; resource_version = [] })

abbrev pub after_save : Shelf
after_save = some (stamp (held 1 new_nodes) (1 ∷ []))

save_run :
    update_vault boxes shelf others open_manager
      (put_node (codes "/app/key") false (codes "v"))
      before_save
    ≡ (ok tt, after_save)
unfolding update_vault loaded_key read_cipher lookup decrypt_tree put_node normalize_path
    encrypt_tree insert
save_run = refl

update_vault-Committed_example :
    Committed boxes shelf others others-Later Conflict
      (put_node (codes "/app/key") false (codes "v"))
      107
      before_save
      after_save
unfolding loaded_key
update_vault-Committed_example =
    update_vault-Committed boxes shelf others others-Later
      (put_node (codes "/app/key") false (codes "v")) 107 open_manager before_save after_save refl
      save_run

-- The path is a folder, so that the modifier refuses to put a secret there.
refused_run :
    update_vault boxes shelf others open_manager
      (put_node (codes "/app") false (codes "v"))
      before_save
    ≡ (err (modifier_failed exists_as_folder), touch before_save)
unfolding update_vault loaded_key read_cipher lookup decrypt_tree put_node normalize_path
    encrypt_tree insert
refused_run = refl

update_vault_unwritten_example :
    Idle boxes shelf others others-Later before_save (touch before_save)
unfolding loaded_key
update_vault_unwritten_example =
    update_vault_unwritten boxes shelf others others-Later
      (put_node (codes "/app") false (codes "v")) 107 open_manager before_save (touch before_save)
      (modifier_failed exists_as_folder) refl refused_run tt

-- A Secret without data.
abbrev bare : Shelf
bare = some (record { content = none; resource_version = [] })

crash_run :
    update_vault boxes shelf others open_manager (put_node (codes "/a") false (codes "v")) bare
    ≡ (err nil_map_write, touch bare)
unfolding update_vault loaded_key read_cipher lookup decrypt_tree put_node normalize_path
    encrypt_tree insert
crash_run = refl

update_vault-nil_map_example :
    (update_vault boxes shelf others open_manager (put_node (codes "/a") false (codes "v")) bare
      ≡ (err nil_map_write, touch bare))
    ↔ Crashes boxes shelf others (put_node (codes "/a") false (codes "v")) 107 bare (touch bare)
unfolding loaded_key
update_vault-nil_map_example =
    update_vault-nil_map boxes shelf others (put_node (codes "/a") false (codes "v")) 107
      open_manager bare (touch bare) refl

bare_crash :
    Crashes boxes shelf others (put_node (codes "/a") false (codes "v")) 107 bare (touch bare)
unfolding loaded_key
bare_crash =
    (update_vault-nil_map boxes shelf others (put_node (codes "/a") false (codes "v")) 107
        open_manager bare (touch bare) refl).0
      crash_run

read_cipher-encrypt_tree_example :
    (u : VaultTree) × (read_cipher boxes {E = Conflict} 107
        (some (record { key = 107; draw = 3; tree = old_tree }))
      ≡ ok u)
    × SameTree u old_tree
unfolding encrypt_tree
read_cipher-encrypt_tree_example =
    read_cipher-encrypt_tree boxes {E = Conflict} 3 old_tree 107
      (record { key = 107; draw = 3; tree = old_tree }) refl

-- The first attempt loses against the other writer, the second goes through.
first_round :
    LostUpdate boxes shelf others
      (put_node (codes "/app/key") false (codes "v"))
      107
      0
      before_save
      (touch before_save)
unfolding read_cipher lookup decrypt_tree put_node normalize_path encrypt_tree insert ◌==◌
first_round = record {
  sec = record { content = held 0 old_tree; resource_version = [] };
  content = (data_key, record { key = 107; draw = 0; tree = old_tree }) ∷ [];
  found = refl;
  filled = refl;
  cipher = record { key = 107; draw = 0; tree = new_nodes };
  writes = record {
    tree = old_tree;
    tree' = new_nodes;
    read = refl;
    changed = refl;
    encrypted = refl;
  };
  stale = refl;
}

Lost-once :
    Lost boxes shelf others
      (put_node (codes "/app/key") false (codes "v"))
      107
      before_save
      1
      (touch before_save)
Lost-once = retry fresh (inr first_round)

second_attempt :
    Writes boxes shelf others
      (put_node (codes "/app/key") false (codes "v"))
      107
      1
      (touch before_save)
      (record { key = 107; draw = 1; tree = new_nodes })
unfolding read_cipher lookup decrypt_tree put_node normalize_path encrypt_tree insert
second_attempt = record {
  tree = old_tree;
  tree' = new_nodes;
  read = refl;
  changed = refl;
  encrypted = refl;
}

accepted :
    Accepts boxes shelf others
      (touch before_save)
      (record { key = 107; draw = 1; tree = new_nodes })
      (touch before_save)
unfolding ◌==◌
accepted m h = refl

update_vault-ok_example :
    (update_vault boxes shelf others open_manager
      (put_node (codes "/app/key") false (codes "v"))
      before_save).0
    ≡ ok tt
unfolding loaded_key
update_vault-ok_example =
    update_vault-ok boxes shelf others (put_node (codes "/app/key") false (codes "v")) 107
      open_manager before_save (touch before_save) 1 (touch before_save)
      (record { key = 107; draw = 1; tree = new_nodes }) refl Lost-once (omega arith) (refl, refl)
      (present ((data_key, record { key = 107; draw = 0; tree = old_tree }) ∷ []) refl refl)
      second_attempt accepted
