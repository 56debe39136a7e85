-- ===== src/Vault/External.antt =====
-- What vault.go calls and this repository does not implement: the Kubernetes API, as far as one
-- Secret goes, and age with encoding/json.
use csi_secret_age.Prelude.{ℕ, Text, List, ◌≡◌, Bool, false, Option, none, some, Result, ok, err}
use csi_secret_age.Prelude.Maps.{Map, lookup}
use csi_secret_age.Tree.{VaultTree, entries}

-- The classes that `IsNotFound`, `IsAlreadyExists` and `IsConflict` tell apart.
pub data ApiError : Type 0 where
  not_found already_exists conflict : ApiError
  other : Text → ApiError

-- The API server refused the request. After any other failure, a timeout say, the request may have
-- been carried out.
abbrev pub IsRefusal : ApiError → Type 0
IsRefusal (other message) = ⊥
IsRefusal _ = Unit

-- A Secret as a client holds it; `content` is `Data`, `none` where that is nil.
pub record Stored (Cipher : Type 0) : Type 0 where
  pub content : Option (Map Cipher)
  pub resource_version : Text

-- Get, Create and Update of the one Secret of the vault, with optimistic locking: an update goes
-- through only if the stored object still has the version that the caller read, and a version
-- names one content.
pub record SecretApi (Cipher : Type 0) : Type 1 where
  pub Cluster : Type 0
  pub get : Cluster → Result ApiError (Stored Cipher)
  pub create : Map Cipher → Cluster → Result ApiError (Unit {0}) × Cluster
  pub update : Stored Cipher → Cluster → Result ApiError (Unit {0}) × Cluster
  -- what the other clients can turn the cluster into
  pub Later : Cluster → Cluster → Type 0
  -- what the API server holds
  pub stored : Cluster → Option (Stored Cipher)
  pub get_found : (c : Cluster) (sec : Stored Cipher) → get c ≡ ok sec → stored c ≡ some sec
  pub create_done :
      (m : Map Cipher) (c : Cluster)
      → (create m c).0 ≡ ok tt
      → (stored c ≡ none)
        × ((v : Text) × (stored (create m c).1
              ≡ some (record { content = some m; resource_version = v })))
  pub update_done :
      (sec : Stored Cipher) (c : Cluster)
      → (update sec c).0 ≡ ok tt
      → ((old : Stored Cipher) × (stored c ≡ some old)
          × (old.resource_version ≡ sec.resource_version))
        × ((v : Text) × (stored (update sec c).1
              ≡ some (record { content = sec.content; resource_version = v })))
  pub version_fixes :
      (c d : Cluster) (sec sec' : Stored Cipher)
      → Later c d
      → stored c ≡ some sec
      → stored d ≡ some sec'
      → sec'.resource_version ≡ sec.resource_version
      → sec' ≡ sec
  pub create_refused :
      (m : Map Cipher) (c : Cluster) (e : ApiError)
      → IsRefusal e
      → (create m c).0 ≡ err e
      → (create m c).1 ≡ c
  pub update_refused :
      (sec : Stored Cipher) (c : Cluster) (e : ApiError)
      → IsRefusal e
      → (update sec c).0 ≡ err e
      → (update sec c).1 ≡ c

-- The same map, in whatever order.
abbrev pub SameTree : VaultTree → VaultTree → Type 0
SameTree t u = (k : Text) → lookup k (entries t) ≡ lookup k (entries u)

-- age and encoding/json: what is encrypted to a key is decrypted by it, and a tree that is written
-- as JSON is read back. The number that `encrypt` takes is the randomness that it draws.
pub record Sealing : Type 1 where
  pub Key : Type 0
  pub Plain : Type 0
  pub Cipher : Type 0
  pub Reader : Type 0
  pub is_empty : Cipher → Bool
  pub parse_identities : Text → Result Text (List (Option Key))
  pub encrypt : ℕ → Key → Plain → Result Text Cipher
  pub decrypt : Key → Cipher → Result Text Reader
  pub read_all : Reader → Result Text Plain
  pub marshal : VaultTree → Result Text Plain
  pub unmarshal : Plain → Result Text VaultTree
  pub decrypt-encrypt :
      (n : ℕ) (id : Key) (plain : Plain) (ct : Cipher)
      → encrypt n id plain ≡ ok ct
      → (is_empty ct ≡ false)
        × ((reader : Reader) × (decrypt id ct ≡ ok reader) × (read_all reader ≡ ok plain))
  pub unmarshal-marshal :
      (t : VaultTree) (plain : Plain)
      → marshal t ≡ ok plain
      → (u : VaultTree) × (unmarshal plain ≡ ok u) × SameTree u t
