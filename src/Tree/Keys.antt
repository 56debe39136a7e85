-- ===== src/Tree/Keys.antt =====
-- `normalizeKeys`.
use csi_secret_age.Prelude.{
  Text, [], ◌∷◌, ◌≡◌, inl, inr, true, false, arith, ◌==◌, ==_iff, ==_refl, In, some, ap,
  Option-cases, Bool-cases,
}
use csi_secret_age.Prelude.Maps.{Map, lookup, lookup-insert}
use csi_secret_age.Paths.{normalize_path}
use csi_secret_age.Tree.{VaultNode, entries, keep_node, normalize_entries, normalize_keys}

abbrev pub IsFolderAt : Text → Map VaultNode → Type 0
IsFolderAt k m = (n : VaultNode) × (lookup k m ≡ some n) × (n.is_folder ≡ true)

-- `keep_node` at another key changes nothing.
pub keep_node-ne :
    (k j : Text) (v : VaultNode) (m : Map VaultNode)
    → (k == j) ≡ false
    → lookup j (keep_node k v m) ≡ lookup j m
unfolding keep_node
keep_node-ne k j v m h = ground (arith, lookup-insert k j v m)

keep_node-folder :
    (k j : Text) (v : VaultNode) (m : Map VaultNode)
    → IsFolderAt j m
    → IsFolderAt j (keep_node k v m)
unfolding keep_node
keep_node-folder k j v m (n, e, f) = (n, ground (arith, lookup-insert k j v m, ==_iff k j), f)

keep_node_self :
    (k : Text) (v : VaultNode) (m : Map VaultNode)
    → v.is_folder ≡ true
    → IsFolderAt k (keep_node k v m)
unfolding keep_node
keep_node_self k v m f = elim (Option-cases (lookup k m)) [
  | inl missing ↦ (v, ground (arith, lookup-insert k k v m, ==_refl k), f)
  | inr (old, found) ↦ elim (Bool-cases old.is_folder) [
    | inl folder ↦ (old, ground arith, folder)
    | inr secret ↦ (v, ground (arith, lookup-insert k k v m, ==_refl k), f)
  ]
]

normalize_entries-folder :
    (m acc : Map VaultNode) (j : Text) → IsFolderAt j acc → IsFolderAt j (normalize_entries m acc)
unfolding normalize_entries
normalize_entries-folder [] acc j h = h
normalize_entries-folder ((k, v) ∷ m) acc j h =
    normalize_entries-folder m _ j (keep_node-folder (normalize_path k) j v acc h)

folder_wins :
    (m acc : Map VaultNode) (k : Text) (v : VaultNode)
    → In (k, v) m
    → v.is_folder ≡ true
    → IsFolderAt (normalize_path k) (normalize_entries m acc)
unfolding normalize_entries
folder_wins [] acc k v i f = elim i [ ]
folder_wins ((j, w) ∷ m) acc k v (inl e) f =
    let key : k ≡ j = ap (λ (b : Text × VaultNode). b.0) e in
    let node : v ≡ w = ap (λ (b : Text × VaultNode). b.1) e in
    rw key (
      normalize_entries-folder m _ (normalize_path j)
        (keep_node_self (normalize_path j) w acc (rw node at f)))
folder_wins ((j, w) ∷ m) acc k v (inr i) f = folder_wins m _ k v i f

-- Of several keys that normalise to one path, a folder is kept, whatever the order of the map.
pub normalize_keys-folder :
    (m : Map VaultNode) (k : Text) (v : VaultNode)
    → In (k, v) m
    → v.is_folder ≡ true
    → IsFolderAt (normalize_path k) (entries (normalize_keys (record { nodes = some m })))
unfolding normalize_keys
normalize_keys-folder m k v i f = folder_wins m [] k v i f
