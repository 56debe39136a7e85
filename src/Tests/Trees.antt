-- ===== src/Tests/Trees.antt =====
-- Runs of the changes to the tree.
use csi_secret_age.Prelude.{[], ◌∷◌, ◌≡◌, ◌↔◌, refl, true, false, codes, none, some, ok, inl}
use csi_secret_age.Prelude.Maps.{lookup, insert, remove}
use csi_secret_age.Paths.{normalize_path, validate_vault_path}
use csi_secret_age.Tree.{
  VaultNode, VaultTree, entries, new_tree, normalize_keys, check_path_conflict, put_node,
  delete_node, under_secret,
}
use csi_secret_age.Tree.Keys.{IsFolderAt, normalize_keys-folder}
use csi_secret_age.Tree.Conflicts.{Fits, check_path_conflict_iff}
use csi_secret_age.Tree.Consistent.{
  Edits, here, next, put, delete, IsWellFormed, Edits-IsWellFormed,
}

abbrev secret : VaultNode
secret = record { value = codes "s3cret"; is_folder = false }

abbrev folder : VaultNode
folder = record { value = []; is_folder = true }

abbrev one_secret : VaultTree
one_secret = record { nodes = some ((codes "/db/x", secret) ∷ []) }

abbrev emptied : VaultTree
emptied = record { nodes = some [] }

put_run : put_node (codes "/db/x") false (codes "s3cret") new_tree ≡ ok one_secret
unfolding put_node normalize_path lookup insert
put_run = refl

below_secret :
    check_path_conflict one_secret (codes "/db/x/y") true ≡ some (under_secret (codes "/db/x"))
unfolding check_path_conflict lookup normalize_path
below_secret = refl

new_tree-IsWellFormed : IsWellFormed new_tree
new_tree-IsWellFormed = record { consistent = λ k j n w i. absurd i; canonical = λ k n i. absurd i }

edits : Edits new_tree emptied
unfolding validate_vault_path normalize_path delete_node remove
edits =
    next (next here (put (codes "db/x") (codes "/db/x") (codes "s3cret") false refl refl put_run))
      (delete (codes "/db/x") refl)

Edits-IsWellFormed_example : IsWellFormed emptied
Edits-IsWellFormed_example = Edits-IsWellFormed edits new_tree-IsWellFormed

check_path_conflict_iff_example :
    (check_path_conflict one_secret (codes "db/x/y") true ≡ none)
    ↔ Fits (entries one_secret) (normalize_path (codes "db/x/y")) true
check_path_conflict_iff_example = check_path_conflict_iff one_secret (codes "db/x/y") true

normalize_keys-folder_example : IsFolderAt (normalize_path (codes "db")) (
    entries (
      normalize_keys (record { nodes = some ((codes "db", folder) ∷ (codes "/db", secret) ∷ []) })))
normalize_keys-folder_example =
    normalize_keys-folder ((codes "db", folder) ∷ (codes "/db", secret) ∷ []) (codes "db") folder
      (inl refl) refl
