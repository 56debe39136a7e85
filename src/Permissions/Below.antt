-- ===== src/Permissions/Below.antt =====
-- What `matchPrefix` grants: a directory, written out, and all that lies below it.
use csi_secret_age.Prelude.{
  ℕ, Text, List, [], ◌∷◌, ◌++◌, ◌≡◌, inl, inr, refl, sym, ap, ◌∙◌, true, false, arith, codes, ◌==◌,
  ==_iff, ==_refl, All, length, length-append, All-append_right, append-nil, append_assoc,
  Bool-cases, if◌then◌else◌,
}
use csi_secret_age.Strings.{has_prefix, has_suffix, split, join}
use csi_secret_age.Strings.Prefixes.{has_prefix-append, has_prefix-split, has_suffix-split}
use csi_secret_age.Strings.Splits.{split-join, split_at_sep, join-append}
use csi_secret_age.Paths.{slash, segments, render}
use csi_secret_age.Paths.Canonical.{IsName, segments-render, All-no_slash}
use csi_secret_age.Permissions.{match_prefix}

-- The path lies at the directory or below it.
abbrev pub IsWithin : List Text → List Text → Type 0
IsWithin directory path = (rest : List Text) × (path ≡ directory ++ rest)

pub split-render :
    (part : Text) (parts : List Text)
    → All IsName (part ∷ parts)
    → split slash (render (part ∷ parts)) ≡ [] ∷ part ∷ parts
unfolding render
split-render part parts h =
    split_at_sep slash [] (join slash (part ∷ parts))
    ∙ ap (λ r. split slash [] ++ r) (split-join slash part parts (All-no_slash (part ∷ parts) h))
    ∙ unfold split in refl

module _ (parts : List Text) (named : All IsName parts) where
  pub render-injective :
      (others : List Text) → All IsName others → render parts ≡ render others → parts ≡ others
  render-injective others h e =
      sym (segments-render parts named) ∙ ap segments e ∙ segments-render others h

pub All-last :
    (P : Text → Type 0) (parts xs : List Text) (t : Text) → parts ≡ xs ++ t ∷ [] → All P parts → P t
All-last P parts xs t e h = (All-append_right P xs (t ∷ []) (rw e at h)).0

last_empty :
    (xs : List Text) (part : Text) (parts : List Text)
    → [] ∷ part ∷ parts ≡ xs ++ [] ∷ []
    → ¬ All IsName (part ∷ parts)
last_empty [] part parts e h = cc
last_empty (x ∷ xs) part parts e h =
    (All-last IsName (part ∷ parts) xs [] (ground arith) h).not_empty refl

-- The text of a directory does not end in a slash, unless it is the root.
render-no_suffix :
    (part : Text) (parts : List Text)
    → All IsName (part ∷ parts)
    → has_suffix (render (part ∷ parts)) (codes "/") ≡ false
render-no_suffix part parts h = elim (Bool-cases (has_suffix (render (part ∷ parts)) (codes "/"))) [
  | inl e ↦
      let (rest, same) = has_suffix-split _ _ e in
      let cuts : [] ∷ part ∷ parts ≡ split slash rest ++ [] ∷ [] =
        sym (split-render part parts h)
        ∙ ap (split slash) same
        ∙ split_at_sep slash rest []
        ∙ unfold split in refl in
      absurd (last_empty (split slash rest) part parts cuts h)
  | inr e ↦ e
]

IsWithin-of_prefix :
    (part : Text) (parts path : List Text) (rest : Text)
    → All IsName (part ∷ parts)
    → All IsName path
    → render path ≡ (render (part ∷ parts) ++ codes "/") ++ rest
    → IsWithin (part ∷ parts) path
IsWithin-of_prefix part parts [] rest h k e = absurd (
    unfold render in
    omega (
      arith,
      ap {B = ℕ} length e,
      length-append {0} (join slash (part ∷ parts)) (codes "/" ++ rest),
      ap {B = ℕ} length (append_assoc (join slash (part ∷ parts)) (codes "/") rest),
    ))
IsWithin-of_prefix part parts (q ∷ qs) rest h k e =
    let cuts : [] ∷ q ∷ qs ≡ ([] ∷ part ∷ parts) ++ split slash rest =
      sym (split-render q qs k)
      ∙ ap (split slash) (e ∙ append_assoc _ (codes "/") rest)
      ∙ split_at_sep slash (render (part ∷ parts)) rest
      ∙ ap (λ r. r ++ split slash rest) (split-render part parts h) in
    (split slash rest, ground arith)

render-ne-nil : (parts : List Text) → (render parts == []) ≡ false
unfolding render ◌==◌
render-ne-nil parts = refl

match_prefix_lem :
    (part : Text) (parts : List Text) (p : Text)
    → All IsName (part ∷ parts)
    → match_prefix (render (part ∷ parts)) p ≡ (
        if p == render (part ∷ parts)
        then true
        else has_prefix p (render (part ∷ parts) ++ codes "/"))
unfolding match_prefix
match_prefix_lem part parts p h =
    rw (render-ne-nil (part ∷ parts)) (rw (render-no_suffix part parts h))

render_below :
    (part : Text) (parts : List Text) (r : Text) (rs : List Text)
    → render ((part ∷ parts) ++ r ∷ rs)
      ≡ (render (part ∷ parts) ++ codes "/") ++ join slash (r ∷ rs)
unfolding render
render_below part parts r rs =
    ap (λ s. slash ∷ s) (join-append slash (part ∷ parts) (r ∷ rs) (λ e. cc) (λ e. cc))
    ∙ sym (append_assoc (render (part ∷ parts)) (codes "/") (join slash (r ∷ rs)))

pub match_prefix_sound :
    (part : Text) (parts path : List Text)
    → All IsName (part ∷ parts)
    → All IsName path
    → match_prefix (render (part ∷ parts)) (render path) ≡ true
    → IsWithin (part ∷ parts) path
match_prefix_sound part parts path h k m =
    elim (Bool-cases (render path == render (part ∷ parts))) [
      | inl e ↦
          ([], render-injective path k (part ∷ parts) h ((==_iff _ _).0 e) ∙ sym (append-nil _))
      | inr e ↦
          let prefixed : has_prefix (render path) (render (part ∷ parts) ++ codes "/") ≡ true =
            ground (arith, match_prefix_lem part parts (render path) h) in
          let (rest, same) = has_prefix-split _ _ prefixed in
          IsWithin-of_prefix part parts path rest h k same
    ]

pub match_prefix_complete :
    (part : Text) (parts path : List Text)
    → All IsName (part ∷ parts)
    → IsWithin (part ∷ parts) path
    → match_prefix (render (part ∷ parts)) (render path) ≡ true
match_prefix_complete part parts path h ([], e) =
    rw (e ∙ append-nil (part ∷ parts))
      (rw (match_prefix_lem part parts _ h) (rw (==_refl (render (part ∷ parts)))))
match_prefix_complete part parts path h (r ∷ rs, e) = ground (
  arith,
  match_prefix_lem part parts (render path) h,
  ap render e,
  render_below part parts r rs,
  has_prefix-append (render (part ∷ parts) ++ codes "/") (join slash (r ∷ rs)),
)
