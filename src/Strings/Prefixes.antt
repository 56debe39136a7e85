-- ===== src/Strings/Prefixes.antt =====
-- Laws of prefixes and suffixes.
use csi_secret_age.Prelude.{
  ℕ, Text, [], ◌∷◌, ◌++◌, ◌≡◌, ◌≢◌, refl, true, arith, ◌==◌, ==_iff, ==_refl, ap, Bool-cases, inl,
  inr, length, length-append,
}
use csi_secret_age.Strings.{has_prefix, trim_prefix, has_suffix, trim_suffix}

pub has_prefix-append : (s t : Text) → has_prefix (s ++ t) s ≡ true
unfolding has_prefix
has_prefix-append [] t = refl
has_prefix-append (c ∷ s) t = ground (arith, has_prefix-append s t)

-- A text with a prefix is the prefix and what `TrimPrefix` leaves.
pub has_prefix-split : (s t : Text) → has_prefix s t ≡ true → (rest : Text) × (s ≡ t ++ rest)
unfolding has_prefix
has_prefix-split s [] h = (s, refl)
has_prefix-split [] (d ∷ t) h = cc
has_prefix-split (c ∷ s) (d ∷ t) h =
    let (rest, e) = has_prefix-split s t (ground arith) in (rest, ground arith)

pub trim_prefix-append : (s t : Text) → trim_prefix (s ++ t) s ≡ t
unfolding trim_prefix
trim_prefix-append [] t = refl
trim_prefix-append (c ∷ s) t = ground (arith, trim_prefix-append s t, has_prefix-append s t)

pub has_suffix-append : (s t : Text) → has_suffix (s ++ t) t ≡ true
unfolding has_suffix
has_suffix-append [] [] = unfold ◌==◌ in refl
has_suffix-append [] (d ∷ t) = ground (arith, ==_refl (d ∷ t))
has_suffix-append (c ∷ s) t = ground (arith, has_suffix-append s t)

append-ne_self : (c : ℕ) (s t : Text) → (c ∷ s) ++ t ≢ t
append-ne_self c s t e = omega (arith, ap {B = ℕ} length e, length-append {0} s t)

pub trim_suffix-append : (s : Text) (c : ℕ) (t : Text) → trim_suffix (s ++ c ∷ t) (c ∷ t) ≡ s
unfolding trim_suffix
trim_suffix-append [] c t = ground (arith, ==_refl (c ∷ t))
trim_suffix-append (d ∷ s) c t =
    ground (
      arith,
      trim_suffix-append s c t,
      ==_iff ((d ∷ s) ++ c ∷ t) (c ∷ t),
      append-ne_self d s (c ∷ t),
    )

pub has_suffix-split : (s t : Text) → has_suffix s t ≡ true → (rest : Text) × (s ≡ rest ++ t)
unfolding has_suffix
has_suffix-split [] t h = ([], (==_iff [] t).0 h)
has_suffix-split (c ∷ s) t h = elim (Bool-cases ((c ∷ s) == t)) [
  | inl e ↦ ([], (==_iff (c ∷ s) t).0 e)
  | inr e ↦
      let (rest, same) = has_suffix-split s t (ground arith) in (c ∷ rest, ap (λ r. c ∷ r) same)
]
