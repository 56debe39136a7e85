-- ===== src/Paths/Below.antt =====
-- What lies below a folder, for the tests of ui.go that use a prefix of the path.
use csi_secret_age.Prelude.{
  Text, ◌∷◌, ◌++◌, ◌≡◌, ◌≢◌, ◌↔◌, sym, ap, ◌∙◌, true, arith, codes, ==_iff, Bool-cases, ◌==◌, inl,
  inr, append_assoc,
}
use csi_secret_age.Strings.{has_prefix}
use csi_secret_age.Strings.Prefixes.{has_prefix-split, has_prefix-append}
use csi_secret_age.Paths.{slash}

-- The path is `rest` seen from the folder `above`: a slash stands between the two, and the root is
-- that slash.
pub data Beneath (above rest path : Text) : Type 0 where
  at_root : above ≡ codes "/" → path ≡ slash ∷ rest → Beneath above rest path
  in_folder : above ≢ codes "/" → path ≡ above ++ slash ∷ rest → Beneath above rest path

abbrev pub LiesBelow : Text → Text → Type 0
LiesBelow path above = (rest : Text) × Beneath above rest path

-- What a path below the folder begins with.
pub record IsChildPrefix (above prefix : Text) : Type 0 where
  pub of_root : above ≡ codes "/" → prefix ≡ codes "/"
  pub of_folder : above ≢ codes "/" → prefix ≡ above ++ codes "/"

module _ (above prefix : Text) (h : IsChildPrefix above prefix) where
  pub Beneath-of_prefix : (path rest : Text) → path ≡ prefix ++ rest → Beneath above rest path
  Beneath-of_prefix path rest e = elim (Bool-cases (above == codes "/")) [
    | inl top ↦
        let root : above ≡ codes "/" = (==_iff above (codes "/")).0 top in
        at_root root (e ∙ ap (λ p. p ++ rest) (h.of_root root))
    | inr inner ↦
        let ne : above ≢ codes "/" = ground (arith, ==_iff above (codes "/")) in
        in_folder ne
          (e ∙ ap (λ p. p ++ rest) (h.of_folder ne) ∙ append_assoc above (codes "/") rest)
  ]

  pub prefix-of_Beneath : (path rest : Text) → Beneath above rest path → path ≡ prefix ++ rest
  prefix-of_Beneath path rest (at_root root e) = e ∙ ap (λ p. p ++ rest) (sym (h.of_root root))
  prefix-of_Beneath path rest (in_folder ne e) =
      e ∙ sym (append_assoc above (codes "/") rest) ∙ ap (λ p. p ++ rest) (sym (h.of_folder ne))

  -- The test of the prefix decides what lies below.
  pub has_prefix_iff : (path : Text) → (has_prefix path prefix ≡ true) ↔ LiesBelow path above
  has_prefix_iff path = (
    λ m. let (rest, e) = has_prefix-split path prefix m in (rest, Beneath-of_prefix path rest e),
    λ (rest, b). rw (prefix-of_Beneath path rest b) (has_prefix-append prefix rest),
  )
