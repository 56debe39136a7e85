-- ===== src/Permissions/Patterns.antt =====
-- What `matchPermission` grants, in terms of the elements of the cleaned path.
use csi_secret_age.Prelude.{
  ℕ, Text, List, [], ◌∷◌, ◌++◌, ◌≡◌, ◌≢◌, ◌↔◌, inl, inr, refl, sym, ap, ◌∙◌, true, false, arith,
  codes, ◌==◌, ==_iff, ==_refl, All, length, length-append, Bool-cases,
}
use csi_secret_age.Strings.{has_prefix, has_suffix, trim_suffix, split, join}
use csi_secret_age.Strings.Prefixes.{has_suffix-append, has_suffix-split, trim_suffix-append}
use csi_secret_age.Strings.Splits.{split_at_sep}
use csi_secret_age.Paths.{slash, segments, render, normalize_path}
use csi_secret_age.Paths.Canonical.{IsName, segments-IsName}
use csi_secret_age.Paths.Normal.{normalize_path-slash, clean-normalize_path}
use csi_secret_age.Permissions.{wildcard, match_prefix, match_permission}
use csi_secret_age.Permissions.Below.{
  IsWithin, split-render, render-injective, All-last, match_prefix_sound, match_prefix_complete,
}

match_permission-wildcard :
    (parts : List Text) (path : Text)
    → match_permission (render parts ++ wildcard) path
      ≡ match_prefix (render parts) (render (segments path))
unfolding match_permission
match_permission-wildcard parts path = rw (normalize_render parts) (
    rw (has_suffix-append (render parts) wildcard)
      (rw (trim_suffix-append (render parts) slash (codes "*")) (rw (clean-normalize_path path))))
  where
    normalize_render :
        (xs : List Text) → normalize_path (render xs ++ wildcard) ≡ render xs ++ wildcard
    normalize_render xs = unfold render in normalize_path-slash (join slash xs ++ wildcard)

-- A well-formed pattern of the permissions file: one path, or a directory with all below it.
pub data Pattern : Type 0 where
  exact : List Text → Pattern
  subtree : List Text → Pattern

abbrev pub print : Pattern → Text
print (exact parts) = render parts
print (subtree []) = wildcard
print (subtree (part ∷ parts)) = render (part ∷ parts) ++ wildcard

abbrev pub star : Text
star = codes "*"

-- Its elements name children, and only a subtree is written with a final "*".
abbrev pub IsPattern : Pattern → Type 0
IsPattern (exact parts) = All IsName parts × All (λ part. part ≢ star) parts
IsPattern (subtree parts) = All IsName parts

abbrev pub Covers : Pattern → List Text → Type 0
Covers (exact parts) path = path ≡ parts
Covers (subtree parts) path = IsWithin parts path

last_star :
    (xs : List Text) (part : Text) (parts : List Text)
    → [] ∷ part ∷ parts ≡ xs ++ star ∷ []
    → ¬ All (λ p. p ≢ star) (part ∷ parts)
last_star [] part parts e h = cc
last_star (x ∷ xs) part parts e h =
    All-last (λ p. p ≢ star) (part ∷ parts) xs star (ground arith) h refl

not_wildcard :
    (parts : List Text) (rest : Text)
    → All IsName parts
    → All (λ p. p ≢ star) parts
    → render parts ≢ rest ++ wildcard
not_wildcard [] rest h k e =
    unfold render join in omega (arith, ap {B = ℕ} length e, length-append {0} rest wildcard)
not_wildcard (part ∷ parts) rest h k e =
    last_star (split slash rest) part parts
      (sym (split-render part parts h)
        ∙ ap (split slash) e
        ∙ split_at_sep slash rest star
        ∙ unfold split in refl)
      k

exact-no_suffix :
    (parts : List Text)
    → All IsName parts
    → All (λ p. p ≢ star) parts
    → has_suffix (render parts) wildcard ≡ false
exact-no_suffix parts h k = elim (Bool-cases (has_suffix (render parts) wildcard)) [
  | inl e ↦ let (rest, same) = has_suffix-split _ _ e in absurd (not_wildcard parts rest h k same)
  | inr e ↦ e
]

match_permission-exact :
    (parts : List Text) (path : Text)
    → All IsName parts
    → All (λ p. p ≢ star) parts
    → match_permission (render parts) path ≡ (render parts == render (segments path))
unfolding match_permission
match_permission-exact parts path h k =
    rw (normalize_render parts) (rw (exact-no_suffix parts h k) (rw (clean-normalize_path path)))
  where
    normalize_render : (xs : List Text) → normalize_path (render xs) ≡ render xs
    normalize_render xs = unfold render in normalize_path-slash (join slash xs)

exact_iff :
    (parts : List Text) (path : Text)
    → All IsName parts
    → All (λ p. p ≢ star) parts
    → (match_permission (render parts) path ≡ true) ↔ (segments path ≡ parts)
exact_iff parts path h k = (
  λ m. sym (
      render-injective parts h (segments path) (segments-IsName path)
        ((==_iff _ _).0 (sym (match_permission-exact parts path h k) ∙ m))),
  λ e. rw (match_permission-exact parts path h k) (rw e (==_refl (render parts))),
)

match_permission-root : (path : Text) → match_permission wildcard path ≡ true
unfolding match_permission match_prefix normalize_path has_suffix trim_suffix has_prefix ◌==◌
match_permission-root path = refl

-- A pattern grants a path exactly when the elements that are left of the path, once "", "." and
-- ".." are resolved, are those of the pattern (of an exact one) or begin with them (of a subtree).
pub match_permission_iff :
    (pattern : Pattern) (path : Text)
    → IsPattern pattern
    → (match_permission (print pattern) path ≡ true) ↔ Covers pattern (segments path)
match_permission_iff (exact parts) path (h, k) = exact_iff parts path h k
match_permission_iff (subtree []) path h =
    (λ _. (segments path, refl), λ _. match_permission-root path)
match_permission_iff (subtree (part ∷ parts)) path h = (
  λ m.
      match_prefix_sound part parts (segments path) h (segments-IsName path)
        (sym (match_permission-wildcard (part ∷ parts) path) ∙ m),
  λ w.
      match_permission-wildcard (part ∷ parts) path
      ∙ match_prefix_complete part parts (segments path) h w,
)
