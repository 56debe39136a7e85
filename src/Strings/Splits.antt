-- ===== src/Strings/Splits.antt =====
-- Splitting and joining undo each other.
use mathlib.Core.Logic.{◌≢◌}
use csi_secret_age.Prelude.{
  ℕ, Text, List, [], ◌∷◌, ◌++◌, ◌≡◌, refl, arith, All, append_assoc, ap, nat_eq, none, some,
  Bool-cases, inl, inr,
}
use csi_secret_age.Strings.{split, split_first, join, cons_head}

-- A text without the character.
abbrev pub Lacks : ℕ → Text → Type 0
Lacks sep = All (λ c. c ≢ sep)

pub split-ne-nil : (sep : ℕ) (s : Text) → split sep s ≢ []
unfolding split
split-ne-nil sep [] = λ e. cc
split-ne-nil sep (c ∷ s) = ground (arith, split-ne-nil sep s)

pub split-Lacks : (sep : ℕ) (s : Text) → All (Lacks sep) (split sep s)
unfolding split
split-Lacks sep [] = (tt, tt)
split-Lacks sep (c ∷ s) = ground (arith, split-Lacks sep s)

pub split-append : (sep : ℕ) (p s : Text) → Lacks sep p → split sep (p ++ sep ∷ s) ≡ p ∷ split sep s
unfolding split
split-append sep [] s h = ground arith
split-append sep (c ∷ p) s (hc, hp) = ground (arith, split-append sep p s hp)

pub split_of_Lacks : (sep : ℕ) (p : Text) → Lacks sep p → split sep p ≡ p ∷ []
unfolding split
split_of_Lacks sep [] h = refl
split_of_Lacks sep (c ∷ p) (hc, hp) = ground (arith, split_of_Lacks sep p hp)

-- Splitting a join gives the parts back, if there is a part and none holds the separator.
pub split-join :
    (sep : ℕ) (part : Text) (parts : List Text)
    → All (Lacks sep) (part ∷ parts)
    → split sep (join sep (part ∷ parts)) ≡ part ∷ parts
unfolding join
split-join sep part [] (h, hs) = split_of_Lacks sep part h
split-join sep part (next ∷ parts) (h, hs) =
    rw (split-append sep part _ h) (rw (split-join sep next parts hs))

cons_head-append :
    (c : ℕ) (xs ys : List Text) → xs ≢ [] → cons_head c (xs ++ ys) ≡ cons_head c xs ++ ys
cons_head-append c [] ys h = absurd (h refl)
cons_head-append c (x ∷ xs) ys h = refl

-- A separator between two texts is a cut.
pub split_at_sep : (sep : ℕ) (s t : Text) → split sep (s ++ sep ∷ t) ≡ split sep s ++ split sep t
unfolding split
split_at_sep sep [] t = ground arith
split_at_sep sep (c ∷ s) t = ground (
  arith,
  split_at_sep sep s t,
  cons_head-append c (split sep s) (split sep t) (split-ne-nil sep s),
)

pub join-append :
    (sep : ℕ) (xs ys : List Text)
    → xs ≢ []
    → ys ≢ []
    → join sep (xs ++ ys) ≡ join sep xs ++ sep ∷ join sep ys
unfolding join
join-append sep [] ys h k = absurd (h refl)
join-append sep (x ∷ []) [] h k = absurd (k refl)
join-append sep (x ∷ []) (y ∷ ys) h k = refl
join-append sep (x ∷ next ∷ xs) ys h k =
    rw (join-append sep (next ∷ xs) ys (λ e. cc) k) (simp append_assoc)

pub split_first_of_Lacks : (sep : ℕ) (s : Text) → Lacks sep s → split_first sep s ≡ (s, none)
unfolding split_first
split_first_of_Lacks sep [] h = refl
split_first_of_Lacks sep (c ∷ s) (hc, hs) = ground (arith, split_first_of_Lacks sep s hs)

pub split_first-append :
    (sep : ℕ) (name more : Text)
    → Lacks sep name
    → split_first sep (name ++ sep ∷ more) ≡ (name, some more)
unfolding split_first
split_first-append sep [] more h = ground arith
split_first-append sep (c ∷ name) more (hc, hs) =
    ground (arith, split_first-append sep name more hs)

-- How a text splits at its first separator: not at all, or into two.
pub data Halves (sep : ℕ) (s : Text) : Type 0 where
  whole : Lacks sep s → Halves sep s
  two : (name more : Text) → Lacks sep name → s ≡ name ++ sep ∷ more → Halves sep s

pub halves : (sep : ℕ) (s : Text) → Halves sep s
halves sep [] = whole tt
halves sep (c ∷ s) = elim (Bool-cases (nat_eq c sep)) [
  | inl e ↦ let same : c ≡ sep = ground arith in two [] s tt (ap (λ d. d ∷ s) same)
  | inr e ↦
      let ne : c ≢ sep = ground arith in
      elim (halves sep s) [
        | whole h ↦ whole (ne, h)
        | two name more h same ↦ two (c ∷ name) more (ne, h) (ap (λ r. c ∷ r) same)
      ]
]
