-- ===== src/Listing/Shape.antt =====
-- What the nodes below a folder are on its page, read off their paths.
use csi_secret_age.Prelude.{
  ℕ, Text, [], ◌∷◌, ◌++◌, ◌≡◌, ◌≢◌, refl, sym, ap, ◌∙◌, Bool, true, false, In, arith, codes, ◌==◌,
  ==_iff, Option, none, some, Bool-cases, inl, inr, length, length-append,
}
use csi_secret_age.Prelude.Maps.{Map}
use csi_secret_age.Strings.{has_prefix, trim_prefix, split_first}
use csi_secret_age.Strings.Prefixes.{has_prefix-split, has_prefix-append, trim_prefix-append}
use csi_secret_age.Strings.Splits.{
  Lacks, split_first_of_Lacks, split_first-append, whole, two, halves,
}
use csi_secret_age.Paths.{slash, join_path}
use csi_secret_age.Paths.Below.{
  Beneath, at_root, in_folder, IsChildPrefix, Beneath-of_prefix, prefix-of_Beneath,
}
use csi_secret_age.Permissions.{UserPermissions}
use csi_secret_age.Tree.{VaultNode}
use csi_secret_age.Listing.{
  Shown, secret, folder, may_read, child_prefix_of, folder_path, show_child,
}
use csi_secret_age.Listing.Visible.{ShowsNode}

-- The path of the child of this name.
pub data IsChild (current name path : Text) : Type 0 where
  of_root : current ≡ codes "/" → path ≡ slash ∷ name → IsChild current name path
  of_folder : current ≢ codes "/" → path ≡ join_path current name → IsChild current name path

-- A secret right below the folder is a secret of the page, a folder there is a folder of it, and of a
-- path that goes on the folder that its first element names.
pub data Makes (current path : Text) (is_folder : Bool) : Shown → Type 0 where
  own_secret :
      (name : Text)
      → Beneath current name path
      → name ≢ []
      → Lacks slash name
      → is_folder ≡ false
      → Makes current path is_folder (secret (record { path = path; name = name }))
  own_folder :
      (name child : Text)
      → Beneath current name path
      → name ≢ []
      → Lacks slash name
      → is_folder ≡ true
      → IsChild current name child
      → Makes current path is_folder (folder child)
  deeper :
      (name more child : Text)
      → Beneath current (name ++ slash ∷ more) path
      → Lacks slash name
      → IsChild current name child
      → Makes current path is_folder (folder child)

-- A node of the map that the user may read makes `x`.
pub record Shows (up : Option UserPermissions) (current : Text) (m : Map VaultNode) (x : Shown)
    : Type 0 where
  pub path : Text
  pub node : VaultNode
  pub held : In (path, node) m
  pub readable : may_read up path ≡ true
  pub makes : Makes current path node.is_folder x

module _ (current : Text) (given : current ≢ []) where
  child_prefix_of-IsChildPrefix : IsChildPrefix current (child_prefix_of current)
  child_prefix_of-IsChildPrefix = record {
    of_root = λ e. ground (arith, ==_iff current (codes "/"));
    of_folder = λ ne. ground (arith, ==_iff current (codes "/"), ==_iff current []);
  }

  folder_path-IsChild : (name : Text) → IsChild current name (folder_path current name)
  folder_path-IsChild name = elim (Bool-cases (current == codes "/")) [
    | inl top ↦ of_root ((==_iff current (codes "/")).0 top) (ground arith)
    | inr inner ↦
        let ne : current ≢ codes "/" = ground (arith, ==_iff current (codes "/")) in
        of_folder ne (ground (arith, ==_iff current []))
  ]

  IsChild-unique :
      (name child : Text) → IsChild current name child → child ≡ folder_path current name
  unfolding ◌==◌
  IsChild-unique name child (of_root root e) = e ∙ rw root refl
  IsChild-unique name child (of_folder ne e) =
      ground (arith, e, ==_iff current (codes "/"), ==_iff current [])

  Beneath-other : (rest path : Text) → rest ≢ [] → Beneath current rest path → path ≢ current
  Beneath-other rest path ne (at_root root e) same =
      ne (let closed : slash ∷ rest ≡ codes "/" = sym e ∙ same ∙ root in ground arith)
  Beneath-other rest path ne (in_folder inner e) same =
      omega (arith, ap {B = ℕ} length (sym same ∙ e), length-append {0} current (slash ∷ rest))

  own_shape :
      (path : Text) (is_folder : Bool) (rest : Text)
      → rest ≢ []
      → Beneath current rest path
      → Lacks slash rest
      → Makes current path is_folder (show_child current path is_folder (rest, none))
  own_shape path true rest ne below plain =
      own_folder rest (folder_path current rest) below ne plain refl (folder_path-IsChild rest)
  own_shape path false rest ne below plain = own_secret rest below ne plain refl

  module _ (path : Text) (is_folder : Bool) where
    show_child-some :
        (name more : Text) (b : Bool)
        → show_child current path b (name, some more) ≡ folder (folder_path current name)
    show_child-some name more true = refl
    show_child-some name more false = refl

    show_child-Makes :
        (rest : Text)
        → rest ≢ []
        → Beneath current rest path
        → Makes current path is_folder (show_child current path is_folder (split_first slash rest))
    show_child-Makes rest ne below = elim (halves slash rest) [
      | two name more plain same ↦
          let cut : split_first slash rest ≡ (name, some more) =
            ap (split_first slash) same ∙ split_first-append slash name more plain in
          rw cut (
            rw (show_child-some name more is_folder) (
              deeper name more (folder_path current name) (rw same at below) plain
                (folder_path-IsChild name)))
      | whole plain ↦
          rw (split_first_of_Lacks slash rest plain) (own_shape path is_folder rest ne below plain)
    ]

    -- The program's test of the path and what it makes of the rest.
    pub record Tested (x : Shown) : Type 0 where
      pub below : has_prefix path (child_prefix_of current) ≡ true
      pub other : path ≢ current
      pub rest : trim_prefix path (child_prefix_of current) ≢ []
      pub shape :
          x
          ≡ show_child current path is_folder
              (split_first slash (trim_prefix path (child_prefix_of current)))

    tested :
        (rest : Text) (x : Shown)
        → Beneath current rest path
        → rest ≢ []
        → x ≡ show_child current path is_folder (split_first slash rest)
        → Tested x
    tested rest x beneath ne same =
        let spelled : path ≡ child_prefix_of current ++ rest =
          prefix-of_Beneath current (child_prefix_of current) child_prefix_of-IsChildPrefix path
            rest beneath in
        let left : trim_prefix path (child_prefix_of current) ≡ rest =
          ap (λ p. trim_prefix p (child_prefix_of current)) spelled
          ∙ trim_prefix-append (child_prefix_of current) rest in
        record {
          below =
              ap (λ p. has_prefix p (child_prefix_of current)) spelled
              ∙ has_prefix-append (child_prefix_of current) rest;
          other = Beneath-other rest path ne beneath;
          rest = λ e. ne (sym left ∙ e);
          shape = rw left same;
        }

    append-ne-nil : (name more : Text) → name ++ slash ∷ more ≢ []
    append-ne-nil [] more = λ e. cc
    append-ne-nil (c ∷ name) more = λ e. cc

    Tested-of_Makes : (x : Shown) → Makes current path is_folder x → Tested x
    Tested-of_Makes x (own_secret name beneath ne plain leaf) =
        tested name _ beneath ne (rw (split_first_of_Lacks slash name plain) (rw leaf refl))
    Tested-of_Makes x (own_folder name child beneath ne plain is to) = tested name _ beneath ne (
        rw (split_first_of_Lacks slash name plain)
          (rw is (ap (λ p. folder p) (IsChild-unique name child to))))
    Tested-of_Makes x (deeper name more child beneath plain to) =
        tested (name ++ slash ∷ more) _ beneath (append-ne-nil name more) (
          rw (split_first-append slash name more plain) (
            rw (show_child-some name more is_folder)
              (ap (λ p. folder p) (IsChild-unique name child to))))

    Makes-of_Tested : (x : Shown) → Tested x → Makes current path is_folder x
    Makes-of_Tested x t =
        let (rest, spelled) = has_prefix-split path (child_prefix_of current) t.below in
        let left : trim_prefix path (child_prefix_of current) ≡ rest =
          ap (λ p. trim_prefix p (child_prefix_of current)) spelled
          ∙ trim_prefix-append (child_prefix_of current) rest in
        rw t.shape (
          rw left (
            show_child-Makes rest (λ e. t.rest (left ∙ e))
              (Beneath-of_prefix current (child_prefix_of current) child_prefix_of-IsChildPrefix
                path rest spelled)))

  module _ (up : Option UserPermissions) (m : Map VaultNode) (x : Shown) where
    -- What the loop shows is what the nodes make.
    pub Shows-of_ShowsNode : ShowsNode up current m x → Shows up current m x
    Shows-of_ShowsNode s = record {
      path = s.path;
      node = s.node;
      held = s.held;
      readable = s.readable;
      makes =
          Makes-of_Tested s.path s.node.is_folder x
            (record { below = s.below; other = s.other; rest = s.rest; shape = s.shape });
    }

    pub ShowsNode-of_Shows : Shows up current m x → ShowsNode up current m x
    ShowsNode-of_Shows s =
        let t = Tested-of_Makes s.path s.node.is_folder x s.makes in
        record {
          path = s.path;
          node = s.node;
          held = s.held;
          readable = s.readable;
          below = t.below;
          other = t.other;
          rest = t.rest;
          shape = t.shape;
        }
