-- ===== src/Keys/Verifying.antt =====
-- The key functions that permissions.go hands to the JWT library: `staticKeyfuncFromPEM`,
-- `staticKeyfuncFromJWKS` and `newJWKSKeyfunc`.
use csi_secret_age.Prelude.{
  ℕ, Text, [], Bool, not, ◌==◌, if◌then◌else◌, Option, none, some, Result, ok, err,
}
use csi_secret_age.Prelude.Maps.{lookup}
use csi_secret_age.Jwks.{JwksCache, LookupError, get_key}
use csi_secret_age.Keys.{PublicKey, KeyLibrary, Keyfunc, static_pem, static_jwks, cached_jwks}
use csi_secret_age.Keys.Fetch.{Response, FetchError, fetch}

-- What a key function reads of a token: whether its method is an RSA signature, and the key id if
-- the header holds one that is a text.
pub record TokenHeader : Type 0 where
  pub rsa_method : Bool
  pub kid : Option Text

pub data KeyfuncError : Type 0 where
  unexpected_method : KeyfuncError
  missing_kid : KeyfuncError
  unknown_kid : Text → KeyfuncError
  lookup_failed : LookupError FetchError → KeyfuncError

abbrev pub kid_of : Option Text → Text
kid_of none = []
kid_of (some kid) = kid

abbrev pub found_key : Text → Option PublicKey → Result KeyfuncError PublicKey
found_key kid none = err (unknown_kid kid)
found_key kid (some key) = ok key

abbrev pub looked_up : Result (LookupError FetchError) PublicKey → Result KeyfuncError PublicKey
looked_up (ok key) = ok key
looked_up (err e) = err (lookup_failed e)

-- A call of `getKey`: the times of its two looks and of its end, what the endpoint answers if it is
-- asked, and what other goroutines do between the two locks.
pub record Lookup : Type 0 where
  pub start : ℕ
  pub now : ℕ
  pub done : ℕ
  pub resp : Result Text Response
  pub others : JwksCache PublicKey → JwksCache PublicKey

module _ (lib : KeyLibrary) where
  abbrev pub cache_key :
      Lookup
      → Text
      → JwksCache PublicKey
      → Result (LookupError FetchError) PublicKey × JwksCache PublicKey
  cache_key l kid c = get_key l.start l.now l.done kid (fetch lib l.resp) l.others c

  -- The key for a token; `c` is the cache of a key function for a URL.
  unfoldable pub key_for :
      Lookup → JwksCache PublicKey → Keyfunc → TokenHeader → Result KeyfuncError PublicKey
  key_for l c (static_pem key) h = if not h.rsa_method then err unexpected_method else ok key
  key_for l c (static_jwks keys) h =
      if not h.rsa_method
      then err unexpected_method
      else if kid_of h.kid == []
      then err missing_kid
      else found_key (kid_of h.kid) (lookup (kid_of h.kid) keys)
  key_for l c (cached_jwks url refresh) h =
      if not h.rsa_method
      then err unexpected_method
      else if kid_of h.kid == []
      then err missing_kid
      else looked_up (cache_key l (kid_of h.kid) c).0
