-- ===== src/Pages/Sorting.antt =====
-- The lists of a page in order: `sort.Slice` by name, as a permutation that is sorted.
use csi_secret_age.Prelude.{
  ◌∙◌, All, Bool-cases, In, List, Text, [], ap, arith, false, inl, inr, refl, sym, true, ◌∷◌, ◌≡◌,
}
use csi_secret_age.Paths.{base}
use csi_secret_age.Pages.{UiFolder, text_lt, insert_by, sort_by, to_folders}

text_lt_asym : (s t : Text) → text_lt s t ≡ true → text_lt t s ≡ false
unfolding text_lt
text_lt_asym [] [] h = refl
text_lt_asym [] (d ∷ t) h = refl
text_lt_asym (c ∷ s) [] h = cc
text_lt_asym (c ∷ s) (d ∷ t) h = ground (arith, text_lt_asym s t)

text_lt_trans : (r s t : Text) → text_lt s r ≡ false → text_lt t s ≡ false → text_lt t r ≡ false
unfolding text_lt
text_lt_trans [] s [] h k = refl
text_lt_trans [] [] (e ∷ t) h k = refl
text_lt_trans [] (d ∷ s) (e ∷ t) h k = refl
text_lt_trans (b ∷ r) [] t h k = cc
text_lt_trans (b ∷ r) (d ∷ s) [] h k = cc
text_lt_trans (b ∷ r) (d ∷ s) (e ∷ t) h k = ground (arith, text_lt_trans r s t)

module _ {A : Type 0} (name : A → Text) where
  abbrev pub NotBefore : A → A → Type 0
  NotBefore x y = text_lt (name y) (name x) ≡ false

  abbrev pub IsSorted : List A → Type 0
  IsSorted [] = Unit
  IsSorted (x ∷ xs) = All (NotBefore x) xs × IsSorted xs

  NotBefore-All :
      (x y : A) (xs : List A) → NotBefore x y → All (NotBefore y) xs → All (NotBefore x) xs
  NotBefore-All x y [] h a = tt
  NotBefore-All x y (z ∷ xs) h (first, a) =
      (text_lt_trans (name x) (name y) (name z) h first, NotBefore-All x y xs h a)

  insert_by-All :
      (x y : A) (xs : List A)
      → NotBefore x y
      → All (NotBefore x) xs
      → All (NotBefore x) (insert_by name y xs)
  unfolding insert_by
  insert_by-All x y [] h a = (h, tt)
  insert_by-All x y (z ∷ xs) h (first, a) = elim (Bool-cases (text_lt (name z) (name y))) [
    | inl before ↦ rw (before, insert_by) (first, insert_by-All x y xs h a)
    | inr after ↦ rw (after, insert_by) (h, (first, a))
  ]

  insert_by-IsSorted : (x : A) (xs : List A) → IsSorted xs → IsSorted (insert_by name x xs)
  unfolding insert_by
  insert_by-IsSorted x [] s = (tt, tt)
  insert_by-IsSorted x (y ∷ xs) (first, s) = elim (Bool-cases (text_lt (name y) (name x))) [
    | inl before ↦
        rw (before, insert_by)
          (
            insert_by-All y x xs (text_lt_asym (name y) (name x) before) first,
            insert_by-IsSorted x xs s,
          )
    | inr after ↦ rw (after, insert_by) ((after, NotBefore-All x y xs after first), (first, s))
  ]

  pub sort_by-IsSorted : (xs : List A) → IsSorted (sort_by name xs)
  unfolding sort_by
  sort_by-IsSorted [] = tt
  sort_by-IsSorted (x ∷ xs) = insert_by-IsSorted x (sort_by name xs) (sort_by-IsSorted xs)

  -- Nothing is lost.
  insert_by_keeps : (x y : A) (xs : List A) → In x (y ∷ xs) → In x (insert_by name y xs)
  unfolding insert_by
  insert_by_keeps x y [] i = i
  insert_by_keeps x y (z ∷ xs) i = elim (Bool-cases (text_lt (name z) (name y))) [
    | inr after ↦ rw (after, insert_by) i
    | inl before ↦ rw (before, insert_by) (moved (insert_by_keeps x y xs) i)
  ]
    where
      moved :
          (In x (y ∷ xs) → In x (insert_by name y xs))
          → In x (y ∷ z ∷ xs)
          → In x (z ∷ insert_by name y xs)
      moved step (inl e) = inr (step (inl e))
      moved step (inr (inl e)) = inl e
      moved step (inr (inr i)) = inr (step (inr i))

  pub sort_by_keeps : (x : A) (xs : List A) → In x xs → In x (sort_by name xs)
  unfolding sort_by
  sort_by_keeps x [] i = i
  sort_by_keeps x (y ∷ ys) (inl e) = insert_by_keeps x y (sort_by name ys) (inl e)
  sort_by_keeps x (y ∷ ys) (inr i) =
      insert_by_keeps x y (sort_by name ys) (inr (sort_by_keeps x ys i))

  insert_by-In : (x y : A) (xs : List A) → In x (insert_by name y xs) → In x (y ∷ xs)
  unfolding insert_by
  insert_by-In x y [] i = i
  insert_by-In x y (z ∷ zs) i = elim (Bool-cases (text_lt (name z) (name y))) [
    | inl before ↦ later (insert_by-In x y zs) (rw (before, insert_by) at i)
    | inr after ↦ rw (after, insert_by) at i
  ]
    where
      later :
          (In x (insert_by name y zs) → In x (y ∷ zs))
          → In x (z ∷ insert_by name y zs)
          → In x (y ∷ z ∷ zs)
      later step (inl e) = inr (inl e)
      later step (inr j) = elim (step j) [ inl e ↦ inl e | inr k ↦ inr (inr k) ]

  pub sort_by-In : (x : A) (xs : List A) → In x (sort_by name xs) → In x xs
  unfolding sort_by
  sort_by-In x [] i = i
  sort_by-In x (y ∷ ys) i = elim (insert_by-In x y (sort_by name ys) i) [
    | inl e ↦ inl e
    | inr j ↦ inr (sort_by-In x ys j)
  ]

pub to_folders-In : (f : UiFolder) (ps : List Text) → In f (to_folders ps) → In f.path ps
to_folders-In f [] i = i
to_folders-In f (p ∷ ps) (inl e) = inl (ap (λ (g : UiFolder). g.path) e)
to_folders-In f (p ∷ ps) (inr i) = inr (to_folders-In f ps i)

pub to_folders-named : (f : UiFolder) (ps : List Text) → In f (to_folders ps) → f.name ≡ base f.path
to_folders-named f [] i = elim i [ ]
to_folders-named f (p ∷ ps) (inl e) =
    ap (λ (g : UiFolder). g.name) e ∙ ap base (sym (ap (λ (g : UiFolder). g.path) e))
to_folders-named f (p ∷ ps) (inr i) = to_folders-named f ps i

-- The folder with the path p is listed.
abbrev pub ListsFolder : Text → List UiFolder → Type 0
ListsFolder p fs = (f : UiFolder) × In f fs × (f.path ≡ p)

pub to_folders_keeps : (p : Text) (ps : List Text) → In p ps → ListsFolder p (to_folders ps)
to_folders_keeps p [] i = elim i [ ]
to_folders_keeps p (q ∷ ps) (inl e) = (record { name = base q; path = q }, inl refl, sym e)
to_folders_keeps p (q ∷ ps) (inr i) = let (f, j, same) = to_folders_keeps p ps i in (f, inr j, same)
