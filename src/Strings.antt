-- ===== src/Strings.antt =====
-- The functions of Go's package strings that the program uses, over code points, with their
-- documented behaviour. The laws are in the children.
pub mod Prefixes
pub mod Splits
use mathlib.Core.List.{reverse}
use csi_secret_age.Prelude.{
  ℕ, Text, List, [], ◌∷◌, ◌++◌, Bool, true, false, ◌||◌, ◌&&◌, nat_eq, leb, any, if◌then◌else◌,
  Option, none, some, not, codes, ◌==◌,
}

unfoldable pub has_prefix : Text → Text → Bool
has_prefix s [] = true
has_prefix [] (d ∷ t) = false
has_prefix (c ∷ s) (d ∷ t) = nat_eq c d && has_prefix s t

-- `strings.TrimPrefix`
unfoldable pub trim_prefix : Text → Text → Text
trim_prefix s [] = s
trim_prefix [] (d ∷ t) = []
trim_prefix (c ∷ s) (d ∷ t) =
    let rest = trim_prefix s t in if nat_eq c d && has_prefix s t then rest else c ∷ s

unfoldable pub has_suffix : Text → Text → Bool
unfolding ◌==◌
has_suffix [] t = [] == t
has_suffix (c ∷ s) t = ((c ∷ s) == t) || has_suffix s t

-- `strings.TrimSuffix`
unfoldable pub trim_suffix : Text → Text → Text
unfolding ◌==◌
trim_suffix [] t = []
trim_suffix (c ∷ s) t = if (c ∷ s) == t then [] else c ∷ trim_suffix s t

-- `strings.Contains` for a text of one character
abbrev pub contains : Text → ℕ → Bool
contains s c = any (λ d. nat_eq d c) s

-- `strings.ContainsAny`
abbrev pub contains_any : Text → Text → Bool
contains_any s chars = any (λ c. contains chars c) s

-- `strings.Count` for a text of one character
unfoldable pub count : Text → ℕ → ℕ
count [] c = 0
count (d ∷ s) c = let n = count s c in if nat_eq d c then Prim.Native.Nat.suc n else n

abbrev pub cons_head : ℕ → List Text → List Text
cons_head c [] = (c ∷ []) ∷ []
cons_head c (part ∷ parts) = (c ∷ part) ∷ parts

-- `strings.Split` at one character: always at least one part
unfoldable pub split : ℕ → Text → List Text
split sep [] = [] ∷ []
split sep (c ∷ s) = let rest = split sep s in if nat_eq c sep then [] ∷ rest else cons_head c rest

-- `strings.SplitN(s, sep, 2)`: the text before the first separator and, if there is one, the rest
unfoldable pub split_first : ℕ → Text → Text × Option Text
split_first sep [] = ([], none)
split_first sep (c ∷ s) =
    let rest = split_first sep s in if nat_eq c sep then ([], some s) else (c ∷ rest.0, rest.1)

-- `strings.Join`
unfoldable pub join : ℕ → List Text → Text
join sep [] = []
join sep (part ∷ []) = part
join sep (part ∷ next ∷ parts) = part ++ sep ∷ join sep (next ∷ parts)

-- `unicode.IsSpace`
unfoldable pub is_space : ℕ → Bool
is_space c =
    leb 9 c && leb c 13
    || nat_eq c 32
    || nat_eq c 0x85
    || nat_eq c 0xa0
    || nat_eq c 0x1680
    || leb 0x2000 c && leb c 0x200a
    || nat_eq c 0x2028
    || nat_eq c 0x2029
    || nat_eq c 0x202f
    || nat_eq c 0x205f
    || nat_eq c 0x3000

-- `unicode.IsControl`
unfoldable pub is_control : ℕ → Bool
is_control c = leb c 0x1f || leb 0x7f c && leb c 0x9f

-- `strings.TrimLeftFunc`
unfoldable pub trim_left : (ℕ → Bool) → Text → Text
trim_left p [] = []
trim_left p (c ∷ s) = let rest = trim_left p s in if p c then rest else c ∷ s

-- `strings.TrimRightFunc`
unfoldable pub trim_right : (ℕ → Bool) → Text → Text
unfolding trim_left
trim_right p s = reverse (trim_left p (reverse s))

-- `strings.Trim` with a cut set of one character
unfoldable pub trim : ℕ → Text → Text
unfolding trim_right
trim c s = trim_right (λ d. nat_eq d c) (trim_left (λ d. nat_eq d c) s)

unfoldable pub trim_space : Text → Text
unfolding trim_right is_space
trim_space s = trim_right is_space (trim_left is_space s)
