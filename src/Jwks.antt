-- ===== src/Jwks.antt =====
-- The cache of a JWKS endpoint in permissions.go: `cached` and `getKey` of `jwksCache`. What the
-- fetch returns is an argument, for which Keys/Fetch has `fetch`; the clock and what other goroutines
-- do to the cache between the two locks are parameters.
pub mod Freshness
use csi_secret_age.Prelude.{
  ℕ, ◌-◌, Text, List, [], ◌∷◌, Bool, true, false, ◌||◌, codes, leb, if◌then◌else◌, Option, none,
  some, Result, ok, err,
}
use csi_secret_age.Prelude.Maps.{Map, lookup}

-- `keys` is none before the first fetch; times are nanoseconds since an origin, and a refresh
-- interval that is negative acts as 0.
pub record JwksCache (Key : Type 0) : Type 0 where
  pub refresh : ℕ
  pub keys : Option (Map Key)
  pub last_fetch : ℕ

pub data LookupError (E : Type 0) : Type 0 where
  fetch_failed : E → LookupError E
  unknown_key : Text → LookupError E

module _ {Key : Type 0} where
  abbrev pub key_of : Text → Option (Map Key) → Option Key
  key_of kid none = none
  key_of kid (some keys) = lookup kid keys

  -- `cached` at the time `now`: nothing if the cache is off, empty or too old.
  unfoldable pub cached : ℕ → Text → JwksCache Key → Option Key
  cached now kid c =
      if leb c.refresh 0
      then none
      else if leb c.refresh (now - c.last_fetch)
      then none
      else key_of kid c.keys

module _ {Key E : Type 0} where
  abbrev pub fetched_key : Text → Option Key → Result (LookupError E) Key
  fetched_key kid none = err (unknown_key kid)
  fetched_key kid (some key) = ok key

  abbrev pub stale_key : E → Option Key → Result (LookupError E) Key
  stale_key e none = err (fetch_failed e)
  stale_key e (some key) = ok key

  -- The rest under the write lock, with what the fetch returned; it ends at the time `done`.
  abbrev pub refetch :
      ℕ → Text → Result E (Map Key) → JwksCache Key → Result (LookupError E) Key × JwksCache Key
  refetch done kid (err e) c = (stale_key e (key_of kid c.keys), c)
  refetch done kid (ok keys) c =
      (fetched_key kid (lookup kid keys), record c { keys = some keys; last_fetch = done })

  abbrev pub or_refetch :
      ℕ
      → Text
      → Result E (Map Key)
      → JwksCache Key
      → Option Key
      → Result (LookupError E) Key × JwksCache Key
  or_refetch done kid fetched c (some key) = (ok key, c)
  or_refetch done kid fetched c none = refetch done kid fetched c

  -- `getKey` from the write lock on.
  unfoldable pub locked_get :
      ℕ → ℕ → Text → Result E (Map Key) → JwksCache Key → Result (LookupError E) Key × JwksCache Key
  locked_get now done kid fetched c = or_refetch done kid fetched c (cached now kid c)

  abbrev pub or_locked_get :
      ℕ
      → ℕ
      → Text
      → Result E (Map Key)
      → (JwksCache Key → JwksCache Key)
      → JwksCache Key
      → Option Key
      → Result (LookupError E) Key × JwksCache Key
  or_locked_get now done kid fetched others c (some key) = (ok key, c)
  or_locked_get now done kid fetched others c none = locked_get now done kid fetched (others c)

  -- `getKey`; `others` is what other goroutines do between the two locks.
  unfoldable pub get_key :
      ℕ
      → ℕ
      → ℕ
      → Text
      → Result E (Map Key)
      → (JwksCache Key → JwksCache Key)
      → JwksCache Key
      → Result (LookupError E) Key × JwksCache Key
  get_key start now done kid fetched others c =
      or_locked_get now done kid fetched others c (cached start kid c)
