-- ===== src/Keys/Trusted.antt =====
-- Which keys verify a token.
use csi_secret_age.Prelude.{
  Text, List, [], In, ◌≡◌, ◌≢◌, refl, true, arith, ==_iff, Option, none, some, Result, ok, err,
}
use csi_secret_age.Prelude.Maps.{Map, lookup}
use csi_secret_age.Jwks.{JwksCache, LookupError}
use csi_secret_age.Keys.{
  PublicKey, Jwk, KeyLibrary, JwtKeyConfig, Keyfunc, static_pem, static_jwks, cached_jwks,
  parse_rsa_public_key, build_jwt_keyfunc,
}
use csi_secret_age.Keys.Usable.{IsUsable, parse_jwks_keys-IsUsable}
use csi_secret_age.Keys.Sources.{
  MadeFrom, from_pem, from_jwks, from_url, build_jwt_keyfunc-MadeFrom,
}
use csi_secret_age.Keys.Fetch.{Response, FetchError}
use csi_secret_age.Keys.Published.{IsPublished, Lived, get_key-IsPublished}
use csi_secret_age.Keys.Verifying.{
  TokenHeader, kid_of, found_key, looked_up, Lookup, cache_key, key_for,
}

found_key-ok :
    (kid : Text) (o : Option PublicKey) (key : PublicKey) → found_key kid o ≡ ok key → o ≡ some key
found_key-ok kid none key h = absurd (ground arith)
found_key-ok kid (some k) key h = ground arith

looked_up-ok :
    (r : Result (LookupError FetchError) PublicKey) (key : PublicKey)
    → looked_up r ≡ ok key
    → r ≡ ok key
looked_up-ok (ok k) key h = ground arith
looked_up-ok (err e) key h = absurd (ground arith)

kid_of-ne : (o : Option Text) → kid_of o ≢ [] → o ≡ some (kid_of o)
kid_of-ne none h = absurd (h refl)
kid_of-ne (some kid) h = refl

-- The configuration trusts the key for a token with this header.
pub data Trusted (lib : KeyLibrary) (cfg : JwtKeyConfig) (served : List (Result Text Response))
    (h : TokenHeader) (key : PublicKey) : Type 0 where
  by_pem :
      cfg.public_key_pem ≢ []
      → parse_rsa_public_key lib cfg.public_key_pem ≡ ok key
      → Trusted lib cfg served h key
  by_key_set :
      (kid : Text) (jwks : List Jwk)
      → h.kid ≡ some kid
      → lib.unmarshal_jwks cfg.jwks_json ≡ ok jwks
      → IsUsable lib jwks kid key
      → Trusted lib cfg served h key
  by_url :
      (kid : Text)
      → cfg.jwks_url ≢ []
      → h.kid ≡ some kid
      → IsPublished lib served kid key
      → Trusted lib cfg served h key

module _ (lib : KeyLibrary) (cfg : JwtKeyConfig) (served : List (Result Text Response))
    (h : TokenHeader) (l : Lookup) (c : JwksCache PublicKey) (key : PublicKey) where
  static_pem-rsa :
      (k : PublicKey)
      → key_for lib l c (static_pem k) h ≡ ok key
      → (h.rsa_method ≡ true) × (k ≡ key)
  unfolding key_for
  static_pem-rsa k r = ground arith

  static_jwks-rsa :
      (keys : Map PublicKey)
      → key_for lib l c (static_jwks keys) h ≡ ok key
      → (h.rsa_method ≡ true)
        × (kid_of h.kid ≢ [])
        × (found_key (kid_of h.kid) (lookup (kid_of h.kid) keys) ≡ ok key)
  unfolding key_for
  static_jwks-rsa keys r = ground (arith, ==_iff (kid_of h.kid) [])

  cached_jwks-rsa :
      key_for lib l c (cached_jwks cfg.jwks_url cfg.refresh_interval) h ≡ ok key
      → (h.rsa_method ≡ true)
        × (kid_of h.kid ≢ [])
        × (looked_up (cache_key lib l (kid_of h.kid) c).0 ≡ ok key)
  unfolding key_for
  cached_jwks-rsa r = ground (arith, ==_iff (kid_of h.kid) [])

  MadeFrom-Trusted :
      (found : Option Keyfunc) (keyfunc : Keyfunc) {d : JwksCache PublicKey}
      → MadeFrom lib cfg found
      → found ≡ some keyfunc
      → Lived lib served cfg.refresh_interval c
      → In l.resp served
      → l.others c ≡ d
      → Lived lib served cfg.refresh_interval d
      → key_for lib l c keyfunc h ≡ ok key
      → (h.rsa_method ≡ true) × Trusted lib cfg served h key
  MadeFrom-Trusted found keyfunc (MadeFrom.unconfigured _ _ _) same lived i between lived' r =
      absurd (ground arith)
  MadeFrom-Trusted found keyfunc (from_pem k set _ _ parsed) same lived i between lived' r =
      let this : keyfunc ≡ static_pem k = ground arith in
      let (rsa, used) = static_pem-rsa k (rw this at r) in (rsa, by_pem set (rw (← used) parsed))
  MadeFrom-Trusted found keyfunc (from_jwks keys _ _ set parsed) same lived i between lived' r =
      let this : keyfunc ≡ static_jwks keys = ground arith in
      let (rsa, named, got) = static_jwks-rsa keys (rw this at r) in
      let (filled, (jwks, read, all)) = parse_jwks_keys-IsUsable lib cfg.jwks_json keys parsed in
      (
        rsa,
        by_key_set (kid_of h.kid) jwks (kid_of-ne h.kid named) read
            (all (kid_of h.kid) key (found_key-ok (kid_of h.kid) _ key got)),
      )
  MadeFrom-Trusted found keyfunc (from_url _ set _) same lived i between lived' r =
      let this : keyfunc ≡ cached_jwks cfg.jwks_url cfg.refresh_interval = ground arith in
      let (rsa, named, got) = cached_jwks-rsa (rw this at r) in
      (
        rsa,
        by_url (kid_of h.kid) set (kid_of-ne h.kid named) (
            get_key-IsPublished lib served l.start l.now l.done (kid_of h.kid) l.resp l.others key
              lived i between lived' (looked_up-ok _ key got)),
      )

  -- A key with which the key function of the configuration verifies a token is for an RSA signature
  -- and comes from the configured source: it is the configured PEM key, or that of an RSA entry for
  -- signatures of the configured key set with the key id of the token, or of such an entry of a
  -- document that the configured URL served with status 200, whatever lookups the cache has behind
  -- it and whatever other goroutines do meanwhile.
  pub key_for-Trusted :
      (keyfunc : Keyfunc) {d : JwksCache PublicKey}
      → build_jwt_keyfunc lib cfg ≡ ok (some keyfunc)
      → Lived lib served cfg.refresh_interval c
      → In l.resp served
      → l.others c ≡ d
      → Lived lib served cfg.refresh_interval d
      → key_for lib l c keyfunc h ≡ ok key
      → (h.rsa_method ≡ true) × Trusted lib cfg served h key
  key_for-Trusted keyfunc built lived i between lived' r =
      MadeFrom-Trusted (some keyfunc) keyfunc
        (build_jwt_keyfunc-MadeFrom lib cfg (some keyfunc) built) refl lived i between lived' r
