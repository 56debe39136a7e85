-- ===== src/Listing/Complete.antt =====
-- What the page does not leave out.
use csi_secret_age.Prelude.{
  Text, [], ◌∷◌, ◌≡◌, refl, ap, any, any_sound, In, ◌==◌, ==_iff, Option, none, some, Bool-cases,
  inl, inr,
}
use csi_secret_age.Prelude.Maps.{Map}
use csi_secret_age.Permissions.{UserPermissions}
use csi_secret_age.Tree.{VaultNode}
use csi_secret_age.Listing.{Children, Shown, secret, folder, show_node, add_shown, list_children}

-- It is in the list of its kind.
abbrev pub Listed : Shown → Children → Type 0
Listed (secret s) c = In s c.secrets
Listed (folder f) c = In f c.folders

add_shown_keeps :
    (x : Shown) (o : Option Shown) (c : Children) → Listed x c → Listed x (add_shown o c)
add_shown_keeps x none c i = i
add_shown_keeps (secret s) (some (secret t)) c i = inr i
add_shown_keeps (folder f) (some (secret t)) c i = i
add_shown_keeps (secret s) (some (folder g)) c i = elim (Bool-cases (any (λ h. h == g) c.folders)) [
  | inl there ↦ rw there i
  | inr new ↦ rw new i
]
add_shown_keeps (folder f) (some (folder g)) c i = elim (Bool-cases (any (λ h. h == g) c.folders)) [
  | inl there ↦ rw there i
  | inr new ↦ rw new (inr i)
]

add_shown_new : (x : Shown) (c : Children) → Listed x (add_shown (some x) c)
add_shown_new (secret s) c = inl refl
add_shown_new (folder f) c = elim (Bool-cases (any (λ h. h == f) c.folders)) [
  | inl there ↦
      let (h, i, same) = any_sound (λ h. h == f) c.folders there in
      rw there (rw (← (==_iff h f).0 same) i)
  | inr new ↦ rw new (inl refl)
]

module _ (up : Option UserPermissions) (current : Text) where
  -- Whatever one round of the loop makes of a node of the tree, a secret or a folder, is listed.
  pub list_children-Listed :
      (m : Map VaultNode) (path : Text) (node : VaultNode) (x : Shown)
      → In (path, node) m
      → show_node up current path node ≡ some x
      → Listed x (list_children up current m)
  unfolding list_children
  list_children-Listed [] path node x i h = elim i [ ]
  list_children-Listed ((k, v) ∷ m) path node x (inl e) h =
      let key : path ≡ k = ap (λ (b : Text × VaultNode). b.0) e in
      let same : node ≡ v = ap (λ (b : Text × VaultNode). b.1) e in
      let shown : show_node up current k v ≡ some x = rw same at (rw key at h) in
      rw shown (add_shown_new x (list_children up current m))
  list_children-Listed ((k, v) ∷ m) path node x (inr i) h =
      add_shown_keeps x (show_node up current k v) (list_children up current m)
        (list_children-Listed m path node x i h)
