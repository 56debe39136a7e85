-- ===== src/Prelude/Maps.antt =====
-- Go maps with string keys, as association lists. The order of the entries is the order in which a
-- `range` loop meets them, which Go leaves open.
use mathlib.Core.Path.{◌≡◌}
use mathlib.Core.Option.{Option, none, some}
use mathlib.Core.List.{List, [], ◌∷◌}
use native.Mathlib.Omega.{arith}
use csi_secret_age.Prelude.Tests.{if◌then◌else◌}
use csi_secret_age.Prelude.Texts.{Text, ◌==◌, ==_iff}

abbrev pub Map {ℓ} : Type ℓ → Type ℓ
Map V = List (Text × V)

module _ {ℓ} {V : Type ℓ} where
  -- the value of `m[key]` and whether it is there
  unfoldable pub lookup : Text → Map V → Option V
  unfolding ◌==◌
  lookup key [] = none
  lookup key ((head, value) ∷ rest) = if head == key then some value else lookup key rest

  -- `m[key] = new`
  unfoldable pub insert : Text → V → Map V → Map V
  unfolding ◌==◌
  insert key new [] = (key, new) ∷ []
  insert key new ((head, value) ∷ rest) =
      let behind = insert key new rest in
      if head == key then (key, new) ∷ rest else (head, value) ∷ behind

  -- `delete(m, key)`
  unfoldable pub remove : Text → Map V → Map V
  unfolding ◌==◌
  remove key [] = []
  remove key ((head, value) ∷ rest) =
      let behind = remove key rest in if head == key then behind else (head, value) ∷ behind

  -- The key that was written has the new value, every other key its old one.
  pub lookup-insert :
      (key asked : Text) (new : V) (map : Map V)
      → lookup asked (insert key new map) ≡ (if key == asked then some new else lookup asked map)
  unfolding lookup insert
  lookup-insert key asked new [] = ground arith
  lookup-insert key asked new ((head, value) ∷ rest) =
      let later = lookup-insert key asked new rest in
      ground (arith, later, ==_iff head asked, ==_iff key asked, ==_iff head key)

  -- The deleted key is not there, every other key has its old value.
  pub lookup-remove :
      (key asked : Text) (map : Map V)
      → lookup asked (remove key map) ≡ (if key == asked then none else lookup asked map)
  unfolding lookup remove
  lookup-remove key asked [] = ground arith
  lookup-remove key asked ((head, value) ∷ rest) =
      let later = lookup-remove key asked rest in
      ground (arith, later, ==_iff head asked, ==_iff key asked, ==_iff head key)
