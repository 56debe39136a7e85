-- ===== src/Paths.antt =====
-- Go's package path over the texts of Strings, and `normalizePath` and `validateVaultPath` of
-- ui.go. The laws are in the children.
pub mod Canonical
pub mod Normal
pub mod Validity
pub mod Below
use mathlib.Core.List.{reverse}
use csi_secret_age.Prelude.{
  ℕ, Text, List, [], ◌∷◌, ◌++◌, Bool, true, false, ◌||◌, any, codes, ◌==◌, nat_eq, Result, ok, err,
  Option, none, some, if◌then◌else◌,
}
use csi_secret_age.Strings.{has_prefix, split, join, is_control, trim_right}

abbrev pub slash : ℕ
slash = b'/'

abbrev pub dot : Text
dot = codes "."

abbrev pub dot_dot : Text
dot_dot = codes ".."

-- ".." against the elements kept so far: it removes the last of them, is dropped at the root, and
-- stays where a path that is not rooted climbs out of its start.
unfoldable pub climb : Bool → List Text → List Text
unfolding ◌==◌
climb true [] = []
climb false [] = dot_dot ∷ []
climb rooted (top ∷ stack) = if top == dot_dot then dot_dot ∷ top ∷ stack else stack

-- One element of the path; the stack has the last element at its head.
unfoldable pub clean_step : Bool → List Text → Text → List Text
unfolding climb
clean_step rooted stack part =
    if part == [] || part == dot
    then stack
    else if part == dot_dot
    then climb rooted stack
    else part ∷ stack

unfoldable pub resolve : Bool → List Text → List Text → List Text
unfolding clean_step
resolve rooted stack [] = reverse stack
resolve rooted stack (part ∷ parts) = resolve rooted (clean_step rooted stack part) parts

-- The elements that are left of a rooted path.
unfoldable pub segments : Text → List Text
unfolding resolve split
segments p = resolve true [] (split slash p)

-- The rooted path with these elements.
unfoldable pub render : List Text → Text
unfolding join
render parts = slash ∷ join slash parts

abbrev pub dot_if_empty : Text → Text
dot_if_empty [] = dot
dot_if_empty (c ∷ s) = c ∷ s

-- `path.Clean`
unfoldable pub clean : Text → Text
unfolding segments render resolve split join
clean [] = dot
clean (c ∷ s) =
    if nat_eq c slash
    then render (segments s)
    else dot_if_empty (join slash (resolve false [] (split slash (c ∷ s))))

-- the text behind the last slash
unfoldable pub after_slash : Text → Text → Text
after_slash last [] = last
after_slash last (c ∷ s) = after_slash (if nat_eq c slash then s else last) s

-- `path.Base`
unfoldable pub base : Text → Text
unfolding after_slash trim_right
base [] = dot
base (c ∷ s) =
    let trimmed = trim_right (λ d. nat_eq d slash) (c ∷ s) in
    let last = after_slash trimmed trimmed in if last == [] then slash ∷ [] else last

-- the text up to and with the last slash: the first half of `path.Split`
unfoldable pub up_to_slash : Text → Text
up_to_slash [] = []
up_to_slash (c ∷ s) =
    let rest = up_to_slash s in
    if nat_eq c slash || any (λ d. nat_eq d slash) s then c ∷ rest else []

-- `path.Dir`
unfoldable pub dir : Text → Text
unfolding clean up_to_slash
dir p = clean (up_to_slash p)

-- `path.Join` of two elements of which the first is not empty
unfoldable pub join_path : Text → Text → Text
unfolding clean
join_path p part = clean (if part == [] then p else p ++ slash ∷ part)

unfoldable pub normalize_path : Text → Text
unfolding has_prefix ◌==◌
normalize_path p =
    if p == [] || p == codes "/"
    then codes "/"
    else if has_prefix p (codes "/")
    then p
    else slash ∷ p

pub data PathError : Type 0 where
  path_required : PathError
  control_character : PathError
  not_canonical : PathError

unfoldable pub validate_vault_path : Text → Result PathError (Unit {0})
unfolding clean is_control ◌==◌
validate_vault_path p =
    if p == codes "/"
    then err path_required
    else if any is_control p
    then err control_character
    else if clean p == p
    then ok tt
    else err not_canonical
