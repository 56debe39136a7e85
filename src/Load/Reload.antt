-- ===== src/Load/Reload.antt =====
-- What a reload does to the permissions that were in force.
use csi_secret_age.Prelude.{
  Text, List, [], ◌∷◌, ◌≡◌, ◌≢◌, refl, ◌∙◌, Bool, true, false, codes, ◌==◌, ==_iff, Option, none,
  some, In, inl, inr, Bool-cases,
}
use csi_secret_age.Prelude.Maps.{Map}
use csi_secret_age.Permissions.{Policy}
use csi_secret_age.Load.{
  Decoders, Loaded, load_user, load_users, load_user_node, load_entry, load_entries, load,
  then_load, cleared, set_namespaces,
}

abbrev KeepsAdmins : List Text → Loaded → Type 0
KeepsAdmins admins r = r.0.admins ≡ admins

then_load-admins :
    (admins : List Text) (r : Loaded) (rest : Policy → Loaded)
    → KeepsAdmins admins r
    → ((p : Policy) → p.admins ≡ admins → KeepsAdmins admins (rest p))
    → KeepsAdmins admins (then_load r rest)
then_load-admins admins (next, none) rest h k = k next h
then_load-admins admins (next, some e) rest h k = h

module _ {Node : Type 0} (yaml : Decoders Node) where
  -- No entry of the file is the list of admins.
  abbrev pub NoAdmins : Map Node → Type 0
  NoAdmins raw = (key : Text) (node : Node) → In (key, node) raw → key ≢ codes "admin_users"

  load_user-admins :
      (user : Text) (r : List Text × Bool) (pol : Policy)
      → (load_user yaml user r pol).0.admins ≡ pol.admins
  unfolding load_user
  load_user-admins user (patterns, true) pol = refl
  load_user-admins user (patterns, false) pol = refl

  load_users-admins :
      (users : Map Node) (pol : Policy) (admins : List Text)
      → pol.admins ≡ admins
      → KeepsAdmins admins (load_users yaml users pol)
  unfolding load_users
  load_users-admins [] pol admins h = h
  load_users-admins ((user, node) ∷ users) pol admins h =
      then_load-admins admins (load_user yaml user (yaml.strings node []) pol) _
        (load_user-admins user (yaml.strings node []) pol ∙ h)
        (λ p k. load_users-admins users p admins k)

  load_user_node-admins :
      (o : Option (Map Node)) (pol : Policy) → (load_user_node yaml o pol).0.admins ≡ pol.admins
  load_user_node-admins none pol = refl
  load_user_node-admins (some users) pol = load_users-admins users pol pol.admins refl

  set_namespaces-admins :
      (r : Map (List Text) × Bool) (pol : Policy)
      → (set_namespaces yaml pol r).0.admins ≡ pol.admins
  set_namespaces-admins (m, true) pol = refl
  set_namespaces-admins (m, false) pol = refl

  load_entry-admins :
      (key : Text) (node : Node) (pol : Policy)
      → key ≢ codes "admin_users"
      → (load_entry yaml key node pol).0.admins ≡ pol.admins
  unfolding load_entry
  load_entry-admins key node pol ne = elim (Bool-cases (key == codes "admin_users")) [
    | inl same ↦ absurd (ne ((==_iff key _).0 same))
    | inr e1 ↦ elim (Bool-cases (key == codes "user_permissions")) [
      | inl e2 ↦ rw (e1, load_entry) (rw e2 (load_user_node-admins (yaml.nodes node) pol))
      | inr e2 ↦ elim (Bool-cases (key == codes "namespace_permissions")) [
        | inl e3 ↦ rw (e1, load_entry) (rw (e2, e3) (set_namespaces-admins _ pol))
        | inr e3 ↦ rw (e1, load_entry) (rw (e2, e3) refl)
      ]
    ]
  ]

  load_entries-admins :
      (raw : Map Node) (pol : Policy) (admins : List Text)
      → NoAdmins raw
      → pol.admins ≡ admins
      → KeepsAdmins admins (load_entries yaml raw pol)
  unfolding load_entries
  load_entries-admins [] pol admins h e = e
  load_entries-admins ((key, node) ∷ raw) pol admins h e =
      then_load-admins admins (load_entry yaml key node pol) _
        (load_entry-admins key node pol (h key node (inl refl)) ∙ e)
        (λ p k. load_entries-admins raw p admins (λ j n i. h j n (inr i)) k)

  -- A file without a list of admins leaves the admins that were in force before: a reload does not
  -- revoke them, whether it succeeds or not.
  pub load-stale_admins :
      (raw : Map Node) (pol : Policy)
      → NoAdmins raw
      → (load yaml (some (some raw)) pol).0.admins ≡ pol.admins
  unfolding load
  load-stale_admins raw pol h = load_entries-admins raw (cleared yaml pol) pol.admins h refl

  -- A file that parses replaces every other permission: whatever users and namespaces were granted
  -- before, the outcome is the one from a manager with the same admins and no grants at all.
  pub load-forgets :
      (raw : Map Node) (pol : Policy)
      → load yaml (some (some raw)) pol
        ≡ load yaml
            (some (some raw))
            (record { permissions = []; admins = pol.admins; namespace_permissions = [] })
  unfolding load
  load-forgets raw pol = refl
