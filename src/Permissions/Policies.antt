-- ===== src/Permissions/Policies.antt =====
-- Which pods and which users a policy lets in.
use csi_secret_age.Prelude.{
  Text, List, [], ◌∷◌, ◌≡◌, ◌≢◌, ◌↔◌, ◌⊎◌, inl, inr, sym, ap, ◌∙◌, true, arith, ◌==◌, ==_iff,
  ==_refl, any, In, any_sound, any_complete, none, some, Option-cases, Bool-cases,
}
use csi_secret_age.Prelude.Maps.{lookup}
use csi_secret_age.Strings.{split}
use csi_secret_age.Strings.Splits.{Lacks, split-append, split_of_Lacks}
use csi_secret_age.Paths.{slash}
use csi_secret_age.Permissions.{
  Policy, match_permission, match_any, can_read, get_user_permissions, policy_key, namespace_access,
  can_access,
}

-- Some pattern of the list grants the path.
abbrev pub Granted : List Text → Text → Type 0
Granted patterns path =
    (pattern : Text) × In pattern patterns × (match_permission pattern path ≡ true)

match_any_iff :
    (patterns : List Text) (path : Text) → (match_any patterns path ≡ true) ↔ Granted patterns path
unfolding match_any
match_any_iff patterns path =
    (any_sound _ patterns, λ (pattern, m, h). any_complete _ pattern patterns m h)

-- The list that decides: the one of the service account if there is one, else the namespace's.
pub data Decides (pol : Policy) (namespace sa : Text) : List Text → Type 0 where
  by_account :
      {patterns : List Text}
      → lookup (policy_key namespace sa) pol.namespace_permissions ≡ some patterns
      → Decides pol namespace sa patterns
  by_namespace :
      {patterns : List Text}
      → lookup (policy_key namespace sa) pol.namespace_permissions ≡ none
      → lookup namespace pol.namespace_permissions ≡ some patterns
      → Decides pol namespace sa patterns

access_sound :
    (pol : Policy) (namespace sa path : Text)
    → can_access pol namespace sa path ≡ true
    → (patterns : List Text) × Decides pol namespace sa patterns × Granted patterns path
unfolding can_access namespace_access
access_sound pol namespace sa path h =
    elim (Option-cases (lookup (policy_key namespace sa) pol.namespace_permissions)) [
      | inr (patterns, found) ↦
          (patterns, by_account found, (match_any_iff patterns path).0 (ground arith))
      | inl missing ↦ elim (Option-cases (lookup namespace pol.namespace_permissions)) [
        | inr (patterns, found) ↦
            (patterns, by_namespace missing found, (match_any_iff patterns path).0 (ground arith))
        | inl nothing ↦ absurd (ground arith)
      ]
    ]

access_complete :
    (pol : Policy) (namespace sa path : Text) {patterns : List Text}
    → Decides pol namespace sa patterns
    → Granted patterns path
    → can_access pol namespace sa path ≡ true
unfolding can_access namespace_access
access_complete pol namespace sa path {patterns} (by_account found) g =
    rw (found, can_access) ((match_any_iff patterns path).1 g)
access_complete pol namespace sa path {patterns} (by_namespace missing found) g =
    rw (missing, can_access) (rw (found, namespace_access) ((match_any_iff patterns path).1 g))

-- A pod may read a path exactly when the list that decides for it has a pattern that grants the
-- path: the list of its service account if the policy has one, whatever the namespace's says,
-- otherwise that of its namespace; with neither, nothing is granted.
pub can_access_iff :
    (pol : Policy) (namespace sa path : Text)
    → (can_access pol namespace sa path ≡ true)
      ↔ ((patterns : List Text) × Decides pol namespace sa patterns × Granted patterns path)
can_access_iff pol namespace sa path = (
  access_sound pol namespace sa path,
  λ (patterns, d, g). access_complete pol namespace sa path d g,
)

-- The patterns of a user, as the permissions file lists them.
abbrev pub Listed : Policy → Text → Text → Type 0
Listed pol name path =
    (patterns : List Text) × (lookup name pol.permissions ≡ some patterns) × Granted patterns path

read_sound :
    (pol : Policy) (name path : Text)
    → can_read (get_user_permissions pol name) path ≡ true
    → In name pol.admins ⊎ Listed pol name path
unfolding can_read get_user_permissions
read_sound pol name path h = elim (Bool-cases (any (λ admin. admin == name) pol.admins)) [
  | inl e ↦
      let (admin, m, q) = any_sound (λ admin. admin == name) pol.admins e in
      inl (rw (← (==_iff admin name).0 q) m)
  | inr e ↦ elim (Option-cases (lookup name pol.permissions)) [
    | inl missing ↦ absurd (unfold match_any in ground arith)
    | inr (patterns, found) ↦ inr (patterns, found, (match_any_iff patterns path).0 (ground arith))
  ]
]

read_complete :
    (pol : Policy) (name path : Text)
    → In name pol.admins ⊎ Listed pol name path
    → can_read (get_user_permissions pol name) path ≡ true
unfolding can_read get_user_permissions
read_complete pol name path (inl m) =
    ground (arith, any_complete (λ admin. admin == name) name pol.admins m (==_refl name))
read_complete pol name path (inr (patterns, found, g)) =
    ground (arith, (match_any_iff patterns path).1 g)

-- A user may read a path exactly when the user is an admin or the user's list grants the path.
pub can_read_iff :
    (pol : Policy) (name path : Text)
    → (can_read (get_user_permissions pol name) path ≡ true)
      ↔ (In name pol.admins ⊎ Listed pol name path)
can_read_iff pol name path = (read_sound pol name path, read_complete pol name path)

split_key :
    (ns sa : Text) → Lacks slash ns → Lacks slash sa → split slash (policy_key ns sa) ≡ ns ∷ sa ∷ []
split_key ns sa h k = split-append slash ns sa h ∙ ap (λ r. ns ∷ r) (split_of_Lacks slash sa k)

-- Keys of distinct pods are distinct, and none is the key of a namespace, as long as no namespace
-- and no service account holds a slash.
pub policy_key_injective :
    (ns ns' sa sa' : Text)
    → Lacks slash ns
    → Lacks slash ns'
    → Lacks slash sa
    → Lacks slash sa'
    → (policy_key ns sa ≡ policy_key ns' sa' → (ns ≡ ns') × (sa ≡ sa')) × (policy_key ns sa ≢ ns')
policy_key_injective ns ns' sa sa' h h' k k' = (
  λ e.
      let cuts : ns ∷ sa ∷ [] ≡ ns' ∷ sa' ∷ [] =
        sym (split_key ns sa h k) ∙ ap (split slash) e ∙ split_key ns' sa' h' k' in
      (ground arith, ground arith),
  λ e.
      let cuts : ns ∷ sa ∷ [] ≡ ns' ∷ [] =
        sym (split_key ns sa h k) ∙ ap (split slash) e ∙ split_of_Lacks slash ns' h' in
      cc,
)
