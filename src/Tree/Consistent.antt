-- ===== src/Tree/Consistent.antt =====
-- The forms keep the tree well formed.
use csi_secret_age.Prelude.{
  Text, [], ◌∷◌, ◌≡◌, ◌≢◌, ◌⊎◌, inl, inr, sym, Bool, false, arith, ◌==◌, In, some, if◌then◌else◌,
  ok, ap, ◌∙◌, Option-cases, Bool-cases,
}
use csi_secret_age.Prelude.Maps.{Map, lookup, insert, remove, lookup-insert}
use csi_secret_age.Paths.Below.{LiesBelow}
use csi_secret_age.Paths.{slash, normalize_path, validate_vault_path}
use csi_secret_age.Paths.Normal.{normalize_path-IsNormal, normalize_path_idem}
use csi_secret_age.Paths.Validity.{IsCanonical, IsCanonical-of_ok}
use csi_secret_age.Tree.{VaultNode, VaultTree, entries, check_path_conflict, put_node, delete_node}
use csi_secret_age.Tree.Conflicts.{Fits, conflict_sound}

-- Nothing lies below a secret.
abbrev pub IsConsistent : Map VaultNode → Type 0
IsConsistent m =
    (k j : Text) (n w : VaultNode)
    → In (k, n) m
    → In (j, w) m
    → n.is_folder ≡ false
    → j ≢ k
    → ¬ LiesBelow j k

abbrev pub HasCanonicalKeys : Map VaultNode → Type 0
HasCanonicalKeys m = (k : Text) (n : VaultNode) → In (k, n) m → IsCanonical k

pub record IsWellFormed (t : VaultTree) : Type 0 where
  pub consistent : IsConsistent (entries t)
  pub canonical : HasCanonicalKeys (entries t)

module _ {V : Type 0} where
  pub In-insert :
      (k : Text) (v : V) (m : Map V) (b : Text × V) → In b (insert k v m) → (b ≡ (k, v)) ⊎ In b m
  unfolding insert
  In-insert k v [] b h = h
  In-insert k v ((j, w) ∷ m) b h = elim (Bool-cases (j == k)) [
    | inl e ↦ at_head (rw (e, insert) at h)
    | inr e ↦ behind (rw (e, insert) at h) (In-insert k v m b)
  ]
    where
      at_head : (b ≡ (k, v)) ⊎ In b m → (b ≡ (k, v)) ⊎ In b ((j, w) ∷ m)
      at_head (inl q) = inl q
      at_head (inr i) = inr (inr i)

      behind :
          (b ≡ (j, w)) ⊎ In b (insert k v m)
          → (In b (insert k v m) → (b ≡ (k, v)) ⊎ In b m)
          → (b ≡ (k, v)) ⊎ In b ((j, w) ∷ m)
      behind (inl q) rec = inr (inl q)
      behind (inr i) rec = at_head (rec i)

  pub In-remove : (k : Text) (m : Map V) (b : Text × V) → In b (remove k m) → In b m
  unfolding remove
  In-remove k [] b h = h
  In-remove k ((j, w) ∷ m) b h = elim (Bool-cases (j == k)) [
    | inl e ↦ inr (In-remove k m b (rw (e, remove) at h))
    | inr e ↦ behind (rw (e, remove) at h) (In-remove k m b)
  ]
    where
      behind : (b ≡ (j, w)) ⊎ In b (remove k m) → (In b (remove k m) → In b m) → In b ((j, w) ∷ m)
      behind (inl q) rec = inl q
      behind (inr i) rec = inr (rec i)

module _ (m : Map VaultNode) (p : Text) (node : VaultNode) (f : Fits m p node.is_folder)
    (c : IsConsistent m) where
  pairs_IsConsistent :
      (k j : Text) (n w : VaultNode)
      → ◌≡◌ {A = Text × VaultNode} (k, n) (p, node) ⊎ In (k, n) m
      → ◌≡◌ {A = Text × VaultNode} (j, w) (p, node) ⊎ In (j, w) m
      → n.is_folder ≡ false
      → j ≢ k
      → ¬ LiesBelow j k
  pairs_IsConsistent k j n w (inl e) (inl e') leaf ne =
      absurd
        (ne (ap (λ (b : Text × VaultNode). b.0) e' ∙ sym (ap (λ (b : Text × VaultNode). b.0) e)))
  pairs_IsConsistent k j n w (inl e) (inr i) leaf ne =
      let key : k ≡ p = ap (λ (b : Text × VaultNode). b.0) e in
      let same : n ≡ node = ap (λ (b : Text × VaultNode). b.1) e in
      rw key (f.no_child (rw same at leaf) j w i (λ q. ne (q ∙ sym key)))
  pairs_IsConsistent k j n w (inr i) (inl e) leaf ne =
      let key : j ≡ p = ap (λ (b : Text × VaultNode). b.0) e in
      rw key (f.no_secret_above k n i (λ q. ne (key ∙ sym q)) leaf)
  pairs_IsConsistent k j n w (inr i) (inr i') leaf ne = c k j n w i i' leaf ne

  put_IsConsistent : IsConsistent (insert p node m)
  put_IsConsistent k j n w ik ij leaf ne =
      pairs_IsConsistent k j n w (In-insert p node m (k, n) ik) (In-insert p node m (j, w) ij) leaf
        ne

insert-HasCanonicalKeys :
    (m : Map VaultNode) (p : Text) (node : VaultNode)
    → IsCanonical p
    → HasCanonicalKeys m
    → HasCanonicalKeys (insert p node m)
insert-HasCanonicalKeys m p node h c k n i = key (In-insert p node m (k, n) i)
  where
    key : ◌≡◌ {A = Text × VaultNode} (k, n) (p, node) ⊎ In (k, n) m → IsCanonical k
    key (inl e) = rw (ap (λ (b : Text × VaultNode). b.0) e) h
    key (inr j) = c k n j

-- A write that succeeds met no conflict, and is one insertion.
pub put_node-ok :
    (path value : Text) (is_folder : Bool) (t u : VaultTree)
    → put_node path is_folder value t ≡ ok u
    → Fits (entries t) (normalize_path path) is_folder
      × (entries u ≡ insert path (record { value = value; is_folder = is_folder }) (entries t))
unfolding put_node
put_node-ok path value is_folder t u h =
    let whole : VaultTree = record { nodes = some (entries t) } in
    elim (Option-cases (check_path_conflict whole path is_folder)) [
      | inl free ↦ (conflict_sound whole path is_folder free, ground arith)
      | inr (conflict, found) ↦ absurd (ground arith)
    ]

-- A new entry is read back, and every other path reads as before.
pub lookup-put_node :
    (path value : Text) (is_folder : Bool) (t u : VaultTree)
    → put_node path is_folder value t ≡ ok u
    → (j : Text)
    → lookup j (entries u) ≡ (
        if path == j
        then some (record { value = value; is_folder = is_folder })
        else lookup j (entries t))
lookup-put_node path value is_folder t u h j =
    rw ((put_node-ok path value is_folder t u h).1) (lookup-insert path j _ (entries t))

pub entries-delete_node :
    (path : Text) (t : VaultTree) → entries (delete_node path t) ≡ remove path (entries t)
unfolding delete_node remove
entries-delete_node path t = ground arith

-- What the two forms do to the tree: a path that passes validation and has no conflict is written,
-- or a path is deleted.
pub data Edit (t : VaultTree) : VaultTree → Type 0 where
  put :
      {u : VaultTree} (raw path value : Text) (is_folder : Bool)
      → path ≡ normalize_path raw
      → validate_vault_path path ≡ ok tt
      → put_node path is_folder value t ≡ ok u
      → Edit t u
  delete : {u : VaultTree} (path : Text) → u ≡ delete_node path t → Edit t u

pub data Edits (t : VaultTree) : VaultTree → Type 0 where
  here : Edits t t
  next : {u v : VaultTree} → Edits t u → Edit u v → Edits t v

pub IsCanonical-of_valid :
    (raw path : Text)
    → path ≡ normalize_path raw
    → validate_vault_path path ≡ ok tt
    → IsCanonical path
IsCanonical-of_valid raw path e h =
    let n = normalize_path-IsNormal raw in
    let spelled : path ≡ slash ∷ n.rest = e ∙ n.rooted in
    rw spelled (IsCanonical-of_ok n.rest (rw spelled at h))

Edit-IsWellFormed : {t u : VaultTree} → Edit t u → IsWellFormed t → IsWellFormed u
Edit-IsWellFormed {t} {u} (put raw path value is_folder e valid done) w =
    let (fits, same) = put_node-ok path value is_folder t u done in
    let node : VaultNode = record { value = value; is_folder = is_folder } in
    let normal : normalize_path path ≡ path =
      ap normalize_path e ∙ normalize_path_idem raw ∙ sym e in
    record {
      consistent =
          rw same (put_IsConsistent (entries t) path node (rw normal at fits) w.consistent);
      canonical = rw same (
          insert-HasCanonicalKeys (entries t) path node (IsCanonical-of_valid raw path e valid)
            w.canonical);
    }
Edit-IsWellFormed {t} {u} (delete path e) w =
    let same : entries u ≡ remove path (entries t) = ap entries e ∙ entries-delete_node path t in
    let kept = λ (k : Text) (n : VaultNode) (i : In (k, n) (entries u)).
      In-remove path (entries t) (k, n) (rw same at i) in
    record {
      consistent = λ k j n w' i i'. w.consistent k j n w' (kept k n i) (kept j w' i');
      canonical = λ k n i. w.canonical k n (kept k n i);
    }

-- From a well-formed tree every sequence of form submissions that go through leads to a well-formed
-- tree: its keys are canonical paths, and nothing lies below a secret.
pub Edits-IsWellFormed : {t u : VaultTree} → Edits t u → IsWellFormed t → IsWellFormed u
Edits-IsWellFormed here w = w
Edits-IsWellFormed (next es e) w = Edit-IsWellFormed e (Edits-IsWellFormed es w)
