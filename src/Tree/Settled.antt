-- ===== src/Tree/Settled.antt =====
-- What `normalizeKeys` makes of a tree whose keys are normalised already.
use csi_secret_age.Prelude.{
  Text, [], ◌∷◌, ◌≡◌, ◌⊎◌, refl, inl, inr, sym, ◌∙◌, ap, false, arith, ◌==◌, ==_iff, In, none, some,
  Option-cases, Bool-cases, Bool, ok,
}
use csi_secret_age.Prelude.Maps.{Map, lookup, lookup-insert, lookup-remove}
use csi_secret_age.Paths.{normalize_path}
use csi_secret_age.Paths.Normal.{normalize_path_idem}
use csi_secret_age.Tree.{
  VaultNode, VaultTree, entries, keep_node, normalize_entries, normalize_keys, put_node,
  delete_node,
}
use csi_secret_age.Tree.Keys.{keep_node-ne}
use csi_secret_age.Tree.Consistent.{In-insert, In-remove, put_node-ok, entries-delete_node}

-- Every key is as `normalizePath` leaves it.
abbrev pub HasNormalKeys : Map VaultNode → Type 0
HasNormalKeys m = (k : Text) (n : VaultNode) → In (k, n) m → normalize_path k ≡ k

-- No key is there twice, as in every map of Go.
abbrev pub IsDistinct : Map VaultNode → Type 0
IsDistinct [] = Unit
IsDistinct ((k, n) ∷ m) = (lookup k m ≡ none) × IsDistinct m

In-of_lookup : (k : Text) (n : VaultNode) (m : Map VaultNode) → lookup k m ≡ some n → In (k, n) m
unfolding lookup
In-of_lookup k n [] h = cc
In-of_lookup k n ((j, w) ∷ m) h = elim (Bool-cases (j == k)) [
  | inl e ↦
      let key : j ≡ k = (==_iff j k).0 e in
      let node : w ≡ n = ground arith in inl (rw key (rw node refl))
  | inr e ↦ inr (In-of_lookup k n m (rw (e, lookup) at h))
]

lookup-of_In :
    (k : Text) (n : VaultNode) (m : Map VaultNode)
    → In (k, n) m
    → (w : VaultNode) × (lookup k m ≡ some w)
unfolding lookup
lookup-of_In k n [] i = elim i [ ]
lookup-of_In k n ((j, w) ∷ m) (inl e) =
    let key : k ≡ j = ap (λ (b : Text × VaultNode). b.0) e in
    (w, rw key (ground (arith, ==_iff j j)))
lookup-of_In k n ((j, w) ∷ m) (inr i) = elim (Bool-cases (j == k)) [
  | inl e ↦ (w, ground arith)
  | inr e ↦ let (v, found) = lookup-of_In k n m i in (v, ground arith)
]

tail-HasNormalKeys :
    (k : Text) (n : VaultNode) (m : Map VaultNode)
    → HasNormalKeys ((k, n) ∷ m)
    → (normalize_path k ≡ k) × HasNormalKeys m
tail-HasNormalKeys k n m h = (h k n (inl refl), λ j w i. h j w (inr i))

-- A key that is not there is left as it is.
normalize_entries-absent :
    (m acc : Map VaultNode) (j : Text)
    → HasNormalKeys m
    → lookup j m ≡ none
    → lookup j (normalize_entries m acc) ≡ lookup j acc
unfolding normalize_entries lookup
normalize_entries-absent [] acc j normal h = refl
normalize_entries-absent ((k, v) ∷ m) acc j normal h =
    let (settled, later) = tail-HasNormalKeys k v m normal in
    let other : (k == j) ≡ false = ground arith in
    let behind : lookup j m ≡ none = ground arith in
    normalize_entries-absent m (keep_node (normalize_path k) v acc) j later behind
    ∙ keep_node-ne (normalize_path k) j v acc (rw settled other)

keep_node-fresh :
    (k : Text) (v : VaultNode) (m : Map VaultNode)
    → lookup k m ≡ none
    → lookup k (keep_node k v m) ≡ some v
unfolding keep_node
keep_node-fresh k v m h = ground (arith, lookup-insert k k v m, ==_iff k k)

normalize_entries-present :
    (m acc : Map VaultNode) (j : Text) (n : VaultNode)
    → HasNormalKeys m
    → IsDistinct m
    → lookup j m ≡ some n
    → lookup j acc ≡ none
    → lookup j (normalize_entries m acc) ≡ some n
unfolding normalize_entries lookup
normalize_entries-present [] acc j n normal once h fresh = cc
normalize_entries-present ((k, v) ∷ m) acc j n normal (only, once) h fresh =
    let (settled, later) = tail-HasNormalKeys k v m normal in
    elim (Bool-cases (k == j)) [
      | inl e ↦
          let key : k ≡ j = (==_iff k j).0 e in
          let node : v ≡ n = ground arith in
          normalize_entries-absent m (keep_node (normalize_path k) v acc) j later (rw key at only)
          ∙ rw settled (rw key (rw node (keep_node-fresh j n acc fresh)))
      | inr e ↦
          normalize_entries-present m (keep_node (normalize_path k) v acc) j n later once
            (rw (e, lookup) at h) (keep_node-ne (normalize_path k) j v acc (rw settled e) ∙ fresh)
    ]

-- A node of such a tree is found where it was.
pub lookup-normalize_keys :
    (t : VaultTree) (j : Text) (n : VaultNode)
    → HasNormalKeys (entries t)
    → IsDistinct (entries t)
    → lookup j (entries t) ≡ some n
    → lookup j (entries (normalize_keys t)) ≡ some n
unfolding normalize_keys lookup
lookup-normalize_keys t j n normal once h = elim (Option-cases t.nodes) [
  | inl nil ↦ absurd (let missing = rw nil at h in ground arith)
  | inr (m, nodes) ↦ rw nodes (
      normalize_entries-present m [] j n (rw nodes at normal) (rw nodes at once) (rw nodes at h)
        refl)
]

-- A tree with the same entries as one with normal keys has normal keys.
pub HasNormalKeys-same :
    (m l : Map VaultNode)
    → ((k : Text) → lookup k m ≡ lookup k l)
    → HasNormalKeys l
    → HasNormalKeys m
HasNormalKeys-same m l same normal k n i =
    let (w, found) = lookup-of_In k n m i in normal k w (In-of_lookup k w l (sym (same k) ∙ found))

-- An update with a path of the form keeps the keys normal.
pub put_node-HasNormalKeys :
    (raw path value : Text) (is_folder : Bool) (t u : VaultTree)
    → path ≡ normalize_path raw
    → put_node path is_folder value t ≡ ok u
    → HasNormalKeys (entries t)
    → HasNormalKeys (entries u)
put_node-HasNormalKeys raw path value is_folder t u spelled done normal k n i =
    either (
      In-insert path _ (entries t) (k, n) (rw ((put_node-ok path value is_folder t u done).1) at i))
  where
    either :
        ◌≡◌ {A = Text × VaultNode} (k, n) (path, record { value = value; is_folder = is_folder })
          ⊎ In (k, n) (entries t)
        → normalize_path k ≡ k
    either (inl e) =
        let key : k ≡ path = ap (λ (b : Text × VaultNode). b.0) e in
        rw key (rw spelled (normalize_path_idem raw))
    either (inr j) = normal k n j

-- A key that is not there stays away.
pub absent-normalize_keys :
    (t : VaultTree) (j : Text)
    → HasNormalKeys (entries t)
    → lookup j (entries t) ≡ none
    → lookup j (entries (normalize_keys t)) ≡ none
unfolding normalize_keys lookup
absent-normalize_keys t j normal h = elim (Option-cases t.nodes) [
  | inl nil ↦ rw nil refl
  | inr (m, nodes) ↦ rw nodes (normalize_entries-absent m [] j (rw nodes at normal) (rw nodes at h))
]

-- A deletion keeps the keys normal.
pub delete_node-HasNormalKeys :
    (path : Text) (t : VaultTree)
    → HasNormalKeys (entries t)
    → HasNormalKeys (entries (delete_node path t))
delete_node-HasNormalKeys path t normal k n i =
    normal k n (In-remove path (entries t) (k, n) (rw (entries-delete_node path t) at i))

pub lookup-delete_node :
    (path : Text) (t : VaultTree) → lookup path (entries (delete_node path t)) ≡ none
lookup-delete_node path t =
    let removed = lookup-remove path path (entries t) in
    rw (entries-delete_node path t) (ground (arith, ==_iff path path))
