-- ===== src/Listing/Visible.antt =====
-- What the page shows to whom.
use csi_secret_age.Prelude.{
  Text, [], ◌∷◌, ◌≡◌, ◌≢◌, refl, true, any, In, arith, ◌==◌, ==_iff, Option, none, some, Bool-cases,
  inl, inr,
}
use csi_secret_age.Prelude.Maps.{Map}
use csi_secret_age.Strings.{has_prefix, trim_prefix, split_first}
use csi_secret_age.Paths.{slash}
use csi_secret_age.Permissions.{UserPermissions}
use csi_secret_age.Tree.{VaultNode}
use csi_secret_age.Listing.{
  UiSecret, Children, Shown, secret, folder, may_read, child_prefix_of, show_child, show_node,
  add_shown, list_children,
}

-- A node of the map that is shown, as what.
pub record ShowsNode (up : Option UserPermissions) (current : Text) (m : Map VaultNode) (x : Shown)
    : Type 0 where
  pub path : Text
  pub node : VaultNode
  pub held : In (path, node) m
  pub readable : may_read up path ≡ true
  pub below : has_prefix path (child_prefix_of current) ≡ true
  pub other : path ≢ current
  pub rest : trim_prefix path (child_prefix_of current) ≢ []
  pub shape :
      x
      ≡ show_child current path node.is_folder
          (split_first slash (trim_prefix path (child_prefix_of current)))

module _ (up : Option UserPermissions) (current : Text) where
  ShowsNode-later :
      {m : Map VaultNode} {x : Shown} (b : Text × VaultNode)
      → ShowsNode up current m x
      → ShowsNode up current (b ∷ m) x
  ShowsNode-later b s = record {
    path = s.path;
    node = s.node;
    held = inr s.held;
    readable = s.readable;
    below = s.below;
    other = s.other;
    rest = s.rest;
    shape = s.shape;
  }

  show_node-ShowsNode :
      (path : Text) (node : VaultNode) (m : Map VaultNode) (x : Shown)
      → show_node up current path node ≡ some x
      → ShowsNode up current ((path, node) ∷ m) x
  unfolding show_node
  show_node-ShowsNode path node m x h = record {
    path = path;
    node = node;
    held = inl refl;
    readable = ground arith;
    below = ground arith;
    other = ground (arith, ==_iff path current);
    rest = ground (arith, ==_iff (trim_prefix path (child_prefix_of current)) []);
    shape = ground arith;
  }

  -- And every such node is shown.
  pub ShowsNode-shown :
      {m : Map VaultNode} {x : Shown} (s : ShowsNode up current m x)
      → show_node up current s.path s.node ≡ some x
  unfolding show_node
  ShowsNode-shown s = ground (
    arith,
    s.readable,
    s.below,
    s.other,
    s.rest,
    s.shape,
    ==_iff s.path current,
    ==_iff (trim_prefix s.path (child_prefix_of current)) [],
  )

  -- Everything in the two lists comes from a shown node.
  pub record AllShown (m : Map VaultNode) (c : Children) : Type 0 where
    pub secrets : (s : UiSecret) → In s c.secrets → ShowsNode up current m (secret s)
    pub folders : (f : Text) → In f c.folders → ShowsNode up current m (folder f)

  AllShown-later :
      (b : Text × VaultNode) (m : Map VaultNode) (c : Children) → AllShown m c → AllShown (b ∷ m) c
  AllShown-later b m c a = record {
    secrets = λ s i. ShowsNode-later b (a.secrets s i);
    folders = λ f i. ShowsNode-later b (a.folders f i);
  }

  add_shown-AllShown :
      (m : Map VaultNode) (c : Children) (o : Option Shown)
      → ((x : Shown) → o ≡ some x → ShowsNode up current m x)
      → AllShown m c
      → AllShown m (add_shown o c)
  add_shown-AllShown m c none h a = a
  add_shown-AllShown m c (some (secret s)) h a = record { secrets = with_head; folders = a.folders }
    where
      with_head : (t : UiSecret) → In t (s ∷ c.secrets) → ShowsNode up current m (secret t)
      with_head t (inl e) = rw e (h (secret s) refl)
      with_head t (inr i) = a.secrets t i
  add_shown-AllShown m c (some (folder f)) h a = elim (Bool-cases (any (λ g. g == f) c.folders)) [
    | inl there ↦ rw there a
    | inr new ↦ rw new (record { secrets = a.secrets; folders = with_head })
  ]
    where
      with_head : (g : Text) → In g (f ∷ c.folders) → ShowsNode up current m (folder g)
      with_head g (inl e) = rw e (h (folder f) refl)
      with_head g (inr i) = a.folders g i

  -- Every secret and every folder that the page lists comes from a node of the tree that the user
  -- may read, that lies below the folder that is shown and is not that folder itself, and is what
  -- the rest of that node's path, which is not empty, makes of it.
  pub list_children-AllShown : (m : Map VaultNode) → AllShown m (list_children up current m)
  unfolding list_children
  list_children-AllShown [] = record { secrets = λ s i. elim i [ ]; folders = λ f i. elim i [ ] }
  list_children-AllShown ((path, node) ∷ m) =
      add_shown-AllShown ((path, node) ∷ m) (list_children up current m)
        (show_node up current path node) (λ x e. show_node-ShowsNode path node m x e)
        (AllShown-later (path, node) m (list_children up current m) (list_children-AllShown m))
