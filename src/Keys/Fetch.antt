-- ===== src/Keys/Fetch.antt =====
-- `newJWKSKeyfunc` and `fetch` of `jwksCache` in permissions.go: the key set behind a URL. The HTTP
-- client is a parameter; the cache itself is in Jwks.
use csi_secret_age.Prelude.{
  ℕ, ℤ, pos, negsuc, Text, not, nat_eq, if◌then◌else◌, none, Result, ok, err,
}
use csi_secret_age.Prelude.Maps.{Map}
use csi_secret_age.Keys.{PublicKey, KeyError, KeyLibrary, parse_jwks_keys}
use csi_secret_age.Jwks.{JwksCache}

-- The answer to the GET; `body` is what `ReadAll` returns.
pub record Response : Type 0 where
  pub status_code : ℕ
  pub body : Result Text Text

pub data FetchError : Type 0 where
  get_failed : Text → FetchError
  bad_status : ℕ → FetchError
  read_failed : Text → FetchError
  bad_document : KeyError → FetchError

abbrev pub lift_document : Result KeyError (Map PublicKey) → Result FetchError (Map PublicKey)
lift_document (ok keys) = ok keys
lift_document (err e) = err (bad_document e)

-- A negative interval switches the cache off, as 0 does.
abbrev pub interval : ℤ → ℕ
interval (pos n) = n
interval (negsuc n) = 0

abbrev pub new_jwks_cache : ℤ → JwksCache PublicKey
new_jwks_cache refresh = record { refresh = interval refresh; keys = none; last_fetch = 0 }

module _ (lib : KeyLibrary) where
  abbrev pub keys_of_body : Result Text Text → Result FetchError (Map PublicKey)
  keys_of_body (err e) = err (read_failed e)
  keys_of_body (ok json) = lift_document (parse_jwks_keys lib json)

  unfoldable pub fetch : Result Text Response → Result FetchError (Map PublicKey)
  fetch (err e) = err (get_failed e)
  fetch (ok resp) =
      if not (nat_eq resp.status_code 200)
      then err (bad_status resp.status_code)
      else keys_of_body resp.body
