-- ===== src/Tests/Maps.antt =====
-- A reader of JSON whose maps hold each key once, and what a client reads while another one acts.
use csi_secret_age.Prelude.{
  arith, ℕ, Text, [], ◌∷◌, ◌≡◌, refl, ap, codes, ◌==◌, ==_iff, some, Result, ok, inl, inr, nat_eq,
  Bool-cases,
}
use csi_secret_age.Prelude.Maps.{Map, lookup, remove, lookup-remove}
use csi_secret_age.Paths.{normalize_path}
use csi_secret_age.Tree.{VaultNode, VaultTree, Conflict, entries}
use csi_secret_age.Tree.Settled.{HasNormalKeys, IsDistinct}
use csi_secret_age.Vault.{loaded_key, read_cipher, decrypt_tree}
use csi_secret_age.Vault.External.{Sealing, SameTree}
use csi_secret_age.Vault.Updating.{Idle, here, acts, held_cipher}
use csi_secret_age.Tests.Fake.{boxes, Shelf, shelf, others, others-Later}
use csi_secret_age.Tests.Vaults.{old_tree, held, open_manager, before_save}

-- The first of the entries of each key.
abbrev pub once : Map VaultNode → Map VaultNode
once [] = []
once ((k, v) ∷ m) = (k, v) ∷ remove k (once m)

lookup-once : (m : Map VaultNode) (j : Text) → lookup j (once m) ≡ lookup j m
unfolding lookup
lookup-once [] j = refl
lookup-once ((k, v) ∷ m) j =
    let rest = lookup-once m j in let removed = lookup-remove k j (once m) in ground arith

remove-IsDistinct : (k : Text) (m : Map VaultNode) → IsDistinct m → IsDistinct (remove k m)
unfolding remove
remove-IsDistinct k [] h = tt
remove-IsDistinct k ((j, v) ∷ m) (only, later) = elim (Bool-cases (j == k)) [
  | inl e ↦ rw e (remove-IsDistinct k m later)
  | inr e ↦ rw e (
    let removed = lookup-remove k j m in ground (arith, removed, only),
    remove-IsDistinct k m later,
  )
]

once-IsDistinct : (m : Map VaultNode) → IsDistinct (once m)
once-IsDistinct [] = tt
once-IsDistinct ((k, v) ∷ m) = (
  let removed = lookup-remove k k (once m) in ground (arith, ==_iff k k),
  remove-IsDistinct k (once m) (once-IsDistinct m),
)

abbrev pub parsed : VaultTree → VaultTree
parsed t = record { nodes = some (once (entries t)) }

pub parsed-SameTree :
    (t plain : VaultTree)
    → ◌≡◌ {A = Result Text VaultTree} (ok t) (ok plain)
    → SameTree (parsed plain) t
parsed-SameTree t plain h k =
    let same : t ≡ plain = ground arith in rw same (lookup-once (entries plain) k)

-- JSON that is read into a map, which holds each key once.
abbrev pub maps : Sealing
maps = record boxes {
  unmarshal = λ t. ok (parsed t);
  unmarshal-marshal = λ t plain h. (parsed plain, refl, parsed-SameTree t plain h);
}

pub maps-IsDistinct :
    (plain u : VaultTree)
    → ◌≡◌ {A = Result Text VaultTree} (ok (parsed plain)) (ok u)
    → IsDistinct (entries u)
maps-IsDistinct plain u h =
    let same : parsed plain ≡ u = ground arith in rw (← same) (once-IsDistinct (entries plain))

-- Whatever the other client does, the vault holds the old tree.
quiet :
    (b : Shelf)
    → Idle maps shelf others others-Later before_save b
    → (v : Text) × (b ≡ some (record { content = held 0 old_tree; resource_version = v }))
quiet b here = ([], refl)
quiet b (acts {d} idle n) =
    let (v, same) = quiet d idle in
    elim (Bool-cases (nat_eq n 1)) [
      | inl e ↦ (1 ∷ v, rw same (rw e refl))
      | inr e ↦ (v, rw same (rw e refl))
    ]

old_read :
    (v : Text) (t : VaultTree)
    → read_cipher maps {E = Conflict} 107
        (held_cipher (some (record { content = held 0 old_tree; resource_version = v })))
      ≡ ok t
    → old_tree ≡ t
unfolding read_cipher lookup decrypt_tree remove
old_read v t h = ground arith

old_tree-HasNormalKeys : HasNormalKeys (entries old_tree)
unfolding normalize_path
old_tree-HasNormalKeys k n (inl e) =
    let key : k ≡ codes "/app" = ap (λ (b : Text × VaultNode). b.0) e in rw key refl
old_tree-HasNormalKeys k n (inr (inl e)) =
    let key : k ≡ codes "/db/password" = ap (λ (b : Text × VaultNode). b.0) e in rw key refl
old_tree-HasNormalKeys k n (inr (inr x)) = elim x [ ]

pub tidy :
    (key : ℕ) (b : Shelf) (t : VaultTree)
    → loaded_key maps open_manager ≡ some key
    → Idle maps shelf others others-Later before_save b
    → read_cipher maps {E = Conflict} key (held_cipher b) ≡ ok t
    → HasNormalKeys (entries t)
unfolding loaded_key
tidy key b t loaded idle read =
    let (v, same) = quiet b idle in
    let id : 107 ≡ key = ground arith in
    rw (← (old_read v t (rw same at (rw (← id) at read)))) old_tree-HasNormalKeys
