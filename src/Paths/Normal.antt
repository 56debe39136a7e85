-- ===== src/Paths/Normal.antt =====
-- `normalizePath`: a leading slash, and nothing else.
use csi_secret_age.Prelude.{
  Text, [], ◌∷◌, ◌≡◌, refl, arith, codes, ==_iff, Bool-cases, nat_eq, inl, inr, sym, ◌∙◌, ap,
}
use csi_secret_age.Paths.{slash, segments, render, clean, normalize_path}
use csi_secret_age.Paths.Canonical.{clean-slash, segments-slash}

-- A normalised path is rooted and has the elements of the path.
pub record IsNormal (p q : Text) : Type 0 where
  pub rest : Text
  pub rooted : q ≡ slash ∷ rest
  pub same : segments rest ≡ segments p

pub normalize_path-slash : (p : Text) → normalize_path (slash ∷ p) ≡ slash ∷ p
unfolding normalize_path
normalize_path-slash p = ground (arith, ==_iff (slash ∷ p) (codes "/"))

pub normalize_path-IsNormal : (p : Text) → IsNormal p (normalize_path p)
unfolding normalize_path
normalize_path-IsNormal [] = record { rest = []; rooted = refl; same = refl }
normalize_path-IsNormal (c ∷ s) = elim (Bool-cases (nat_eq c slash)) [
  | inl e ↦
      let same : c ≡ slash = ground arith in
      record {
        rest = s;
        rooted = rw same (normalize_path-slash s);
        same = rw same (sym (segments-slash s));
      }
  | inr e ↦ record { rest = c ∷ s; rooted = ground arith; same = refl }
]

-- Normalising a path a second time changes nothing.
pub normalize_path_idem : (p : Text) → normalize_path (normalize_path p) ≡ normalize_path p
normalize_path_idem p =
    let n = normalize_path-IsNormal p in rw n.rooted (normalize_path-slash n.rest)

-- `path.Clean(normalizePath(p))`
pub clean-normalize_path : (p : Text) → clean (normalize_path p) ≡ render (segments p)
clean-normalize_path p =
    let n = normalize_path-IsNormal p in ap clean n.rooted ∙ clean-slash n.rest ∙ ap render n.same
