-- ===== src/Tree/Conflicts.antt =====
-- What `checkPathConflict` refuses.
use csi_secret_age.Prelude.{
  Text, [], ◌∷◌, ◌≡◌, ◌≢◌, ◌↔◌, inl, inr, refl, Bool, true, false, Bool-cases, codes, arith, ==_iff,
  In, Option, none, some,
}
use csi_secret_age.Prelude.Maps.{Map, lookup}
use csi_secret_age.Strings.{has_prefix}
use csi_secret_age.Paths.{normalize_path}
use csi_secret_age.Paths.Below.{LiesBelow, IsChildPrefix, has_prefix_iff}
use csi_secret_age.Tree.{
  VaultNode, VaultTree, entries, child_prefix, kind_conflict, child_conflict, parent_conflict,
  check_path_conflict,
}

child_prefix-IsChildPrefix : (p : Text) → IsChildPrefix p (child_prefix p)
unfolding child_prefix
child_prefix-IsChildPrefix p = record {
  of_root = λ e. ground (arith, ==_iff p (codes "/"));
  of_folder = λ ne. ground (arith, ==_iff p (codes "/"));
}

not_below_iff :
    (path above : Text) → (has_prefix path (child_prefix above) ≡ false) ↔ (¬ LiesBelow path above)
not_below_iff path above =
    let below = has_prefix_iff above (child_prefix above) (child_prefix-IsChildPrefix above) path in
    (
      λ h l. let bad = below.1 l in ground arith,
      λ n. elim (Bool-cases (has_prefix path (child_prefix above))) [
        | inl h ↦ absurd (n (below.0 h))
        | inr h ↦ h
      ],
    )

abbrev pub SameKind : Option VaultNode → Bool → Type 0
SameKind none is_folder = Unit
SameKind (some existing) is_folder = existing.is_folder ≡ is_folder

-- Nothing of the tree lies below a path that is to hold a secret.
abbrev pub NoChild : Text → Map VaultNode → Type 0
NoChild path m = (k : Text) (n : VaultNode) → In (k, n) m → k ≢ path → ¬ LiesBelow k path

-- No secret of the tree lies above the path.
abbrev pub NoSecretAbove : Text → Map VaultNode → Type 0
NoSecretAbove path m =
    (k : Text) (n : VaultNode) → In (k, n) m → k ≢ path → n.is_folder ≡ false → ¬ LiesBelow path k

pub record Fits (m : Map VaultNode) (path : Text) (is_folder : Bool) : Type 0 where
  pub same_kind : SameKind (lookup path m) is_folder
  pub no_child : is_folder ≡ false → NoChild path m
  pub no_secret_above : NoSecretAbove path m

child_sound : (p : Text) (m : Map VaultNode) → child_conflict p m ≡ none → NoChild p m
unfolding child_conflict
child_sound p [] h k n i ne = elim i [ ]
child_sound p ((j, v) ∷ m) h k n (inl e) ne = (not_below_iff k p).0 (ground (arith, ==_iff j p))
child_sound p ((j, v) ∷ m) h k n (inr i) ne = child_sound p m (ground arith) k n i ne

child_complete : (p : Text) (m : Map VaultNode) → NoChild p m → child_conflict p m ≡ none
unfolding child_conflict
child_complete p [] h = refl
child_complete p ((j, v) ∷ m) h =
    let first = λ (ne : j ≢ p). (not_below_iff j p).1 (h j v (inl refl) ne) in
    ground (arith, ==_iff j p, first, child_complete p m (λ k n i. h k n (inr i)))

parent_sound : (p : Text) (m : Map VaultNode) → parent_conflict p m ≡ none → NoSecretAbove p m
unfolding parent_conflict
parent_sound p [] h k n i ne leaf = elim i [ ]
parent_sound p ((j, v) ∷ m) h k n (inl e) ne leaf =
    (not_below_iff p k).0 (ground (arith, ==_iff j p))
parent_sound p ((j, v) ∷ m) h k n (inr i) ne leaf = parent_sound p m (ground arith) k n i ne leaf

parent_complete : (p : Text) (m : Map VaultNode) → NoSecretAbove p m → parent_conflict p m ≡ none
unfolding parent_conflict
parent_complete p [] h = refl
parent_complete p ((j, v) ∷ m) h =
    let first = λ (ne : j ≢ p) (leaf : v.is_folder ≡ false).
      (not_below_iff p j).1 (h j v (inl refl) ne leaf) in
    ground (arith, ==_iff j p, first, parent_complete p m (λ k n i. h k n (inr i)))

kind_iff : (o : Option VaultNode) (b : Bool) → (kind_conflict o b ≡ none) ↔ SameKind o b
unfolding kind_conflict
kind_iff none true = (λ _. tt, λ _. refl)
kind_iff none false = (λ _. tt, λ _. refl)
kind_iff (some n) true = ground arith
kind_iff (some n) false = ground arith

pub conflict_sound :
    (t : VaultTree) (p : Text) (b : Bool)
    → check_path_conflict t p b ≡ none
    → Fits (entries t) (normalize_path p) b
unfolding check_path_conflict
conflict_sound t p b h = record {
  same_kind = (kind_iff (lookup (normalize_path p) (entries t)) b).0 (ground arith);
  no_child = λ e. child_sound (normalize_path p) (entries t) (ground arith);
  no_secret_above = parent_sound (normalize_path p) (entries t) (ground arith);
}

conflict_complete :
    (t : VaultTree) (p : Text) (b : Bool)
    → Fits (entries t) (normalize_path p) b
    → check_path_conflict t p b ≡ none
unfolding check_path_conflict
conflict_complete t p b f = ground (
  arith,
  (kind_iff (lookup (normalize_path p) (entries t)) b).1 f.same_kind,
  λ (e : b ≡ false). child_complete (normalize_path p) (entries t) (f.no_child e),
  parent_complete (normalize_path p) (entries t) f.no_secret_above,
)

-- A path is free of conflicts exactly when a node that is there is of the same kind, nothing lies
-- below the path if it is to hold a secret, and no secret lies above it. Below a path lies what
-- begins with it and a slash.
pub check_path_conflict_iff :
    (t : VaultTree) (path : Text) (is_folder : Bool)
    → (check_path_conflict t path is_folder ≡ none)
      ↔ Fits (entries t) (normalize_path path) is_folder
check_path_conflict_iff t p b = (conflict_sound t p b, conflict_complete t p b)
