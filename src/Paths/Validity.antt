-- ===== src/Paths/Validity.antt =====
-- `validateVaultPath` decides canonical form.
use csi_secret_age.Prelude.{
  Text, List, [], ◌∷◌, ◌≡◌, ◌≢◌, ◌↔◌, refl, sym, false, arith, codes, ==_iff, any, All, ok, ap, ◌∙◌,
}
use csi_secret_age.Strings.{is_control}
use csi_secret_age.Paths.{slash, segments, render, clean, validate_vault_path}
use csi_secret_age.Paths.Canonical.{
  IsName, segments-IsName, clean-slash, clean-render, segments-render,
}

-- A path that spells one list of child names, at least one, with no control character.
pub record IsCanonical (p : Text) : Type 0 where
  pub parts : List Text
  pub not_root : parts ≢ []
  pub named : All IsName parts
  pub printable : All (λ c. is_control c ≡ false) p
  pub spelled : p ≡ render parts

All-is_control : (s : Text) → any is_control s ≡ false → All (λ c. is_control c ≡ false) s
All-is_control [] h = tt
All-is_control (c ∷ s) h = ground (arith, All-is_control s)

any-is_control : (s : Text) → All (λ c. is_control c ≡ false) s → any is_control s ≡ false
any-is_control [] h = refl
any-is_control (c ∷ s) (h, hs) = ground (arith, any-is_control s hs)

segments-root : segments (codes "/") ≡ []
unfolding segments
segments-root = refl

render-root : (parts : List Text) → parts ≡ [] → render parts ≡ codes "/"
unfolding render
render-root parts e = rw e

spelled_of_ok :
    (p : Text) → validate_vault_path (slash ∷ p) ≡ ok tt → slash ∷ p ≡ render (segments p)
unfolding validate_vault_path
spelled_of_ok p h = sym (ground (arith, clean-slash p, ==_iff (clean (slash ∷ p)) (slash ∷ p)))

not_root_of_ok : (p : Text) → validate_vault_path (slash ∷ p) ≡ ok tt → segments p ≢ []
not_root_of_ok p h e =
    let root = spelled_of_ok p h ∙ render-root (segments p) e in
    unfold validate_vault_path in ground (arith, ==_iff (slash ∷ p) (codes "/"))

pub IsCanonical-of_ok :
    (p : Text) → validate_vault_path (slash ∷ p) ≡ ok tt → IsCanonical (slash ∷ p)
unfolding validate_vault_path
IsCanonical-of_ok p h = record {
  parts = segments p;
  not_root = not_root_of_ok p h;
  named = segments-IsName p;
  printable = All-is_control (slash ∷ p) (ground arith);
  spelled = spelled_of_ok p h;
}

render-ne-root : (parts : List Text) → All IsName parts → parts ≢ [] → render parts ≢ codes "/"
render-ne-root parts h ne e = ne (sym (segments-render parts h) ∙ ap segments e ∙ segments-root)

ok_of_canonical : (p : Text) → IsCanonical p → validate_vault_path p ≡ ok tt
unfolding validate_vault_path
ok_of_canonical p h =
    let parts = h.parts in
    ground (
      arith,
      h.spelled,
      render-ne-root parts h.named h.not_root,
      ==_iff p (codes "/"),
      any-is_control p h.printable,
      clean-render parts h.named,
      ap clean h.spelled,
      ==_iff (clean p) p,
    )

-- A rooted path is accepted exactly when it is in canonical form.
pub validate_vault_path_iff :
    (p : Text) → (validate_vault_path (slash ∷ p) ≡ ok tt) ↔ IsCanonical (slash ∷ p)
validate_vault_path_iff p = (IsCanonical-of_ok p, ok_of_canonical (slash ∷ p))
