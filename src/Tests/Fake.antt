-- ===== src/Tests/Fake.antt =====
-- An API server that holds one Secret and counts its versions, and a cipher that keeps the key
-- beside the tree: the parameters of the model of vault.go, with their laws.
use csi_secret_age.Prelude.{
  ℕ, Text, List, [], ◌∷◌, ◌≡◌, ◌≢◌, refl, sym, ◌∙◌, true, false, arith, codes, ◌==◌, ==_iff, nat_eq,
  if◌then◌else◌, Option, none, some, Result, ok, err, inl, inr, Bool-cases,
}
use csi_secret_age.Prelude.Maps.{Map}
use csi_secret_age.Tree.{VaultTree}
use csi_secret_age.Vault.External.{
  ApiError, not_found, already_exists, conflict, IsRefusal, Stored, SecretApi, Sealing, SameTree,
}

pub record Box : Type 0 where
  pub key : ℕ
  pub draw : ℕ
  pub tree : VaultTree

abbrev parse_identities : Text → Result Text (List (Option ℕ))
parse_identities [] = err (codes "no identities found")
parse_identities (c ∷ s) = ok (none ∷ some c ∷ [])

abbrev decrypt : ℕ → Box → Result Text VaultTree
decrypt id box = if nat_eq id box.key then ok box.tree else err (codes "no identity matched")

pub decrypt_same :
    (n id : ℕ) (t : VaultTree) → decrypt id (record { key = id; draw = n; tree = t }) ≡ ok t
decrypt_same n id t = ground arith

pub decrypt_sealed :
    (n id : ℕ) (t : VaultTree) (box : Box)
    → ◌≡◌ {A = Result Text Box} (ok (record { key = id; draw = n; tree = t })) (ok box)
    → (false ≡ false)
      × ((reader : VaultTree) × (decrypt id box ≡ ok reader)
          × (◌≡◌ {A = Result Text VaultTree} (ok reader) (ok t)))
decrypt_sealed n id t box h =
    let same : record { key = id; draw = n; tree = t } ≡ box = ground arith in
    (refl, (t, rw (← same) (decrypt_same n id t), refl))

pub same_tree :
    (t plain : VaultTree) → ◌≡◌ {A = Result Text VaultTree} (ok t) (ok plain) → SameTree plain t
same_tree t plain h k = let same : t ≡ plain = ground arith in rw same

abbrev pub boxes : Sealing
boxes = record {
  Key = ℕ;
  Plain = VaultTree;
  Cipher = Box;
  Reader = VaultTree;
  is_empty = λ box. false;
  parse_identities = parse_identities;
  encrypt = λ n id t. ok (record { key = id; draw = n; tree = t });
  decrypt = decrypt;
  read_all = λ t. ok t;
  marshal = λ t. ok t;
  unmarshal = λ t. ok t;
  decrypt-encrypt = decrypt_sealed;
  unmarshal-marshal = λ t plain h. (plain, refl, same_tree t plain h);
}

abbrev pub Shelf : Type 0
Shelf = Option (Stored Box)

abbrev get : Shelf → Result ApiError (Stored Box)
get none = err not_found
get (some sec) = ok sec

abbrev create : Map Box → Shelf → Result ApiError (Unit {0}) × Shelf
create m none = (ok tt, some (record { content = some m; resource_version = [] }))
create m (some sec) = (err already_exists, some sec)

-- the object with its next version
abbrev pub stamp : Option (Map Box) → Text → Stored Box
stamp content version = record { content = content; resource_version = 1 ∷ version }

abbrev update : Stored Box → Shelf → Result ApiError (Unit {0}) × Shelf
update sec none = (err not_found, none)
update sec (some old) =
    if old.resource_version == sec.resource_version
    then (ok tt, some (stamp sec.content old.resource_version))
    else (err conflict, some old)

abbrev pub Later : Shelf → Shelf → Type 0
Later c d =
    (sec sec' : Stored Box)
    → c ≡ some sec
    → d ≡ some sec'
    → sec'.resource_version ≡ sec.resource_version
    → sec' ≡ sec

pub get_found : (c : Shelf) (sec : Stored Box) → get c ≡ ok sec → c ≡ some sec
get_found none sec h = cc
get_found (some old) sec h = ground arith

pub create_done :
    (m : Map Box) (c : Shelf)
    → (create m c).0 ≡ ok tt
    → (c ≡ none)
      × ((v : Text) × ((create m c).1 ≡ some (record { content = some m; resource_version = v })))
create_done m none h = (refl, ([], refl))
create_done m (some sec) h = cc

pub update_done :
    (sec : Stored Box) (c : Shelf)
    → (update sec c).0 ≡ ok tt
    → ((old : Stored Box) × (c ≡ some old) × (old.resource_version ≡ sec.resource_version))
      × ((v : Text) × ((update sec c).1
            ≡ some (record { content = sec.content; resource_version = v })))
update_done sec none h = cc
update_done sec (some old) h =
    let fresh : (old.resource_version == sec.resource_version) ≡ true = ground arith in
    (
      (old, refl, (==_iff old.resource_version sec.resource_version).0 fresh),
      (1 ∷ old.resource_version, ground arith),
    )

pub create_refused :
    (m : Map Box) (c : Shelf) (e : ApiError)
    → IsRefusal e
    → (create m c).0 ≡ err e
    → (create m c).1 ≡ c
create_refused m none e r h = cc
create_refused m (some sec) e r h = refl

pub update_refused :
    (sec : Stored Box) (c : Shelf) (e : ApiError)
    → IsRefusal e
    → (update sec c).0 ≡ err e
    → (update sec c).1 ≡ c
update_refused sec none e r h = refl
update_refused sec (some old) e r h =
    elim (Bool-cases (old.resource_version == sec.resource_version)) [
      | inl fresh ↦ absurd (ground arith)
      | inr stale ↦ ground arith
    ]

abbrev pub shelf : SecretApi Box
shelf = record {
  Cluster = Shelf;
  get = get;
  create = create;
  update = update;
  Later = Later;
  stored = λ c. c;
  get_found = get_found;
  create_done = create_done;
  update_done = update_done;
  version_fixes = λ c d sec sec' later. later sec sec';
  create_refused = create_refused;
  update_refused = update_refused;
}

-- The other client: it writes the object anew, between the first read and the write after it.
abbrev pub touch : Shelf → Shelf
touch none = some (record { content = some []; resource_version = [] })
touch (some sec) = some (stamp sec.content sec.resource_version)

abbrev pub others : ℕ → Shelf → Shelf
others n c = if nat_eq n 1 then touch c else c

longer : (w : Text) → w ≢ 1 ∷ w
longer [] h = cc
longer (c ∷ w) h = longer w (ground arith)

Later-refl : (c : Shelf) → Later c c
Later-refl none sec sec' h h' e = cc
Later-refl (some old) sec sec' h h' e = ground arith

touch-Later : (c : Shelf) → Later c (touch c)
touch-Later none sec sec' h h' e = cc
touch-Later (some old) sec sec' h h' e =
    let v : sec'.resource_version ≡ 1 ∷ sec.resource_version = ground arith in
    absurd (longer sec.resource_version (sym e ∙ v))

pub others-Later : (n : ℕ) (c : Shelf) → Later c (others n c)
others-Later n c = elim (Bool-cases (nat_eq n 1)) [
  | inl e ↦ rw e (touch-Later c)
  | inr e ↦ rw e (Later-refl c)
]
