-- ===== src/Keys/Sources.antt =====
-- From which setting the key function is made.
use csi_secret_age.Prelude.{
  Text, [], ◌≡◌, ◌≢◌, refl, arith, ◌==◌, ==_iff, ltb, true, false, Option, none, some, Result, ok,
  err, inl, inr, Bool-cases,
}
use csi_secret_age.Prelude.Maps.{Map}
use csi_secret_age.Keys.{
  PublicKey, KeyError, KeyLibrary, parse_rsa_public_key, parse_jwks_keys, JwtKeyConfig, Keyfunc,
  static_pem, static_jwks, cached_jwks, sources_set, to_keyfunc, build_jwt_keyfunc,
}

-- What each kind of key function was made from, the other sources being unset.
pub data MadeFrom (lib : KeyLibrary) (cfg : JwtKeyConfig) : Option Keyfunc → Type 0 where
  unconfigured :
      cfg.public_key_pem ≡ [] → cfg.jwks_url ≡ [] → cfg.jwks_json ≡ [] → MadeFrom lib cfg none
  from_pem :
      (key : PublicKey)
      → cfg.public_key_pem ≢ []
      → cfg.jwks_url ≡ []
      → cfg.jwks_json ≡ []
      → parse_rsa_public_key lib cfg.public_key_pem ≡ ok key
      → MadeFrom lib cfg (some (static_pem key))
  from_jwks :
      (keys : Map PublicKey)
      → cfg.public_key_pem ≡ []
      → cfg.jwks_url ≡ []
      → cfg.jwks_json ≢ []
      → parse_jwks_keys lib cfg.jwks_json ≡ ok keys
      → MadeFrom lib cfg (some (static_jwks keys))
  from_url :
      cfg.public_key_pem ≡ []
      → cfg.jwks_url ≢ []
      → cfg.jwks_json ≡ []
      → MadeFrom lib cfg (some (cached_jwks cfg.jwks_url cfg.refresh_interval))

unset : (s : Text) → (s == []) ≡ true → s ≡ []
unset s h = (==_iff s []).0 h

given : (s : Text) → (s == []) ≡ false → s ≢ []
given s h = ground (arith, ==_iff s [])

module _ (lib : KeyLibrary) (cfg : JwtKeyConfig) where
  to_keyfunc-ok :
      {A : Type 0} (f : A → Keyfunc) (r : Result KeyError A) (found : Option Keyfunc)
      → to_keyfunc f r ≡ ok found
      → (a : A) × (r ≡ ok a) × (found ≡ some (f a))
  to_keyfunc-ok f (ok a) found h = (a, refl, ground arith)
  to_keyfunc-ok f (err e) found h = absurd (ground arith)

  -- A key function is built only where one of the three sources is set, and from that one; that there
  -- is none is no error only where none is set.
  pub build_jwt_keyfunc-MadeFrom :
      (found : Option Keyfunc) → build_jwt_keyfunc lib cfg ≡ ok found → MadeFrom lib cfg found
  unfolding build_jwt_keyfunc
  build_jwt_keyfunc-MadeFrom found h = elim (Bool-cases (cfg.public_key_pem == [])) [
    | inr pem ↦ elim (Bool-cases (ltb 1 (sources_set cfg))) [
      | inl several ↦ absurd (ground arith)
      | inr one ↦
          let no_url : cfg.jwks_url ≡ [] = ground (arith, ==_iff cfg.jwks_url []) in
          let no_json : cfg.jwks_json ≡ [] = ground (arith, ==_iff cfg.jwks_json []) in
          let run : to_keyfunc static_pem (parse_rsa_public_key lib cfg.public_key_pem) ≡ ok found =
            ground arith in
          let (key, parsed, made) = to_keyfunc-ok static_pem _ found run in
          rw made (from_pem key (given cfg.public_key_pem pem) no_url no_json parsed)
    ]
    | inl no_pem ↦ elim (Bool-cases (cfg.jwks_json == [])) [
      | inr json ↦ elim (Bool-cases (ltb 1 (sources_set cfg))) [
        | inl several ↦ absurd (ground arith)
        | inr one ↦
            let no_url : cfg.jwks_url ≡ [] = ground (arith, ==_iff cfg.jwks_url []) in
            let run : to_keyfunc static_jwks (parse_jwks_keys lib cfg.jwks_json) ≡ ok found =
              ground arith in
            let (keys, parsed, made) = to_keyfunc-ok static_jwks _ found run in
            rw made (
              from_jwks keys (unset cfg.public_key_pem no_pem) no_url (given cfg.jwks_json json)
                parsed)
      ]
      | inl no_json ↦ elim (Bool-cases (cfg.jwks_url == [])) [
        | inl no_url ↦
            let made : found ≡ none = ground arith in
            rw made (
              unconfigured (unset cfg.public_key_pem no_pem) (unset cfg.jwks_url no_url)
                (unset cfg.jwks_json no_json))
        | inr url ↦
            let made : found ≡ some (cached_jwks cfg.jwks_url cfg.refresh_interval) =
              ground arith in
            rw made (
              from_url (unset cfg.public_key_pem no_pem) (given cfg.jwks_url url)
                (unset cfg.jwks_json no_json))
      ]
    ]
  ]
