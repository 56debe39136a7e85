-- ===== src/Keys.antt =====
-- Where the keys that verify a JWT come from: `buildJWTKeyfunc` of permissions.go and what it
-- calls. PEM, X.509, JSON and the conversion of a big integer to an `int` are the standard
-- library's and parameters; the cache of a JWKS URL is in Jwks.
pub mod Usable
pub mod Exponents
pub mod Sources
pub mod Fetch
pub mod Published
pub mod Verifying
pub mod Trusted
use csi_secret_age.Prelude.{
  ℕ, ℤ, ◌+◌, ◌*◌, Text, List, [], ◌∷◌, Bool, true, false, not, ◌&&◌, codes, ◌==◌, ltb, nat_eq,
  if◌then◌else◌, Option, none, some, Result, ok, err, ◌>>=◌,
}
use csi_secret_age.Prelude.Maps.{Map, lookup, insert}
use csi_secret_age.Base64.{decode_raw_url}

pub record PublicKey : Type 0 where
  pub modulus : ℕ
  pub exponent : ℤ

-- What the X.509 functions return: an RSA key or one of another kind.
pub data AnyKey : Type 0 where
  rsa : PublicKey → AnyKey
  not_rsa : AnyKey

pub data KeyError : Type 0 where
  bad_pem : KeyError
  bad_x509 : Text → KeyError
  not_rsa_key : KeyError
  unsupported_type : Text → KeyError
  bad_modulus : Text → KeyError
  bad_exponent : Text → KeyError
  bad_json : Text → KeyError
  no_usable_key : KeyError
  several_sources : KeyError

pub record Jwk : Type 0 where
  pub kty : Text
  pub kid : Text
  pub n : Text
  pub e : Text
  pub alg : Text
  pub use' : Text

-- `Decode` of encoding/pem, the two parsers of crypto/x509, `Unmarshal` of a key set, and `Int64`
-- of math/big as an `int`, which is the number itself where that fits.
pub record KeyLibrary : Type 1 where
  pub Block : Type 0
  pub decode_pem : Text → Option Block
  pub parse_pkix : Block → Result Text AnyKey
  pub parse_pkcs1 : Block → Result Text AnyKey
  pub unmarshal_jwks : Text → Result Text (List Jwk)
  pub int64 : ℕ → ℤ

-- `SetBytes`: the bytes as a number, the first the most significant.
unfoldable pub set_bytes : ℕ → List ℕ → ℕ
set_bytes acc [] = acc
set_bytes acc (b ∷ bytes) = set_bytes (acc * 256 + b) bytes

module _ (lib : KeyLibrary) where
  abbrev pub first_or_second : Result Text AnyKey → Result Text AnyKey → Result Text AnyKey
  first_or_second (ok key) second = ok key
  first_or_second (err e) second = second

  abbrev pub only_rsa : Result Text AnyKey → Result KeyError PublicKey
  only_rsa (ok (rsa key)) = ok key
  only_rsa (ok not_rsa) = err not_rsa_key
  only_rsa (err e) = err (bad_x509 e)

  unfoldable pub parse_rsa_public_key : Text → Result KeyError PublicKey
  parse_rsa_public_key pem = elim (lib.decode_pem pem) [
    | none ↦ err bad_pem
    | some block ↦ only_rsa (first_or_second (lib.parse_pkix block) (lib.parse_pkcs1 block))
  ]

  abbrev pub key_of_bytes : Text → Option (List ℕ) → Option (List ℕ) → Result KeyError PublicKey
  key_of_bytes kid none e = err (bad_modulus kid)
  key_of_bytes kid (some n) none = err (bad_exponent kid)
  key_of_bytes kid (some n) (some e) =
      ok (record { modulus = set_bytes 0 n; exponent = lib.int64 (set_bytes 0 e) })

  unfoldable pub parse_rsa_public_key_from_jwk : Jwk → Result KeyError PublicKey
  parse_rsa_public_key_from_jwk key =
      if not (key.kty == codes "RSA")
      then err (unsupported_type key.kty)
      else key_of_bytes key.kid (decode_raw_url key.n) (decode_raw_url key.e)

  abbrev pub store_key : Text → PublicKey → Map PublicKey → Map PublicKey
  store_key kid key keys = if kid == [] then keys else insert kid key keys

  abbrev pub store_parsed :
      Text → Map PublicKey → Result KeyError PublicKey → Result KeyError (Map PublicKey)
  store_parsed kid keys (err e) = err e
  store_parsed kid keys (ok key) = ok (store_key kid key keys)

  -- One round of the loop over the key set.
  unfoldable pub add_key : Jwk → Map PublicKey → Result KeyError (Map PublicKey)
  add_key key keys =
      if not (key.kty == codes "RSA")
      then ok keys
      else if not (key.use' == []) && not (key.use' == codes "sig")
      then ok keys
      else store_parsed key.kid keys (parse_rsa_public_key_from_jwk key)

  unfoldable pub collect_keys : List Jwk → Map PublicKey → Result KeyError (Map PublicKey)
  collect_keys [] keys = ok keys
  collect_keys (key ∷ rest) keys = add_key key keys >>= λ next. collect_keys rest next

  abbrev pub some_key : Map PublicKey → Result KeyError (Map PublicKey)
  some_key [] = err no_usable_key
  some_key (entry ∷ keys) = ok (entry ∷ keys)

  abbrev pub keys_of : Result Text (List Jwk) → Result KeyError (Map PublicKey)
  keys_of (err e) = err (bad_json e)
  keys_of (ok jwks) = collect_keys jwks [] >>= some_key

  unfoldable pub parse_jwks_keys : Text → Result KeyError (Map PublicKey)
  parse_jwks_keys json = keys_of (lib.unmarshal_jwks json)

pub record JwtKeyConfig : Type 0 where
  pub public_key_pem : Text
  pub jwks_url : Text
  pub jwks_json : Text
  pub refresh_interval : ℤ
  pub audience : Text
  pub issuer : Text

-- The key function, by what it closes over.
pub data Keyfunc : Type 0 where
  static_pem : PublicKey → Keyfunc
  static_jwks : Map PublicKey → Keyfunc
  cached_jwks : Text → ℤ → Keyfunc

abbrev pub is_set : Text → ℕ
is_set s = if s == [] then 0 else 1

abbrev pub sources_set : JwtKeyConfig → ℕ
sources_set cfg = is_set cfg.public_key_pem + is_set cfg.jwks_url + is_set cfg.jwks_json

abbrev pub to_keyfunc :
    {A : Type 0} → (A → Keyfunc) → Result KeyError A → Result KeyError (Option Keyfunc)
to_keyfunc f (ok a) = ok (some (f a))
to_keyfunc f (err e) = err e

unfoldable pub build_jwt_keyfunc : KeyLibrary → JwtKeyConfig → Result KeyError (Option Keyfunc)
build_jwt_keyfunc lib cfg =
    if nat_eq (sources_set cfg) 0
    then ok none
    else if ltb 1 (sources_set cfg)
    then err several_sources
    else if not (cfg.public_key_pem == [])
    then to_keyfunc static_pem (parse_rsa_public_key lib cfg.public_key_pem)
    else if not (cfg.jwks_json == [])
    then to_keyfunc static_jwks (parse_jwks_keys lib cfg.jwks_json)
    else ok (some (cached_jwks cfg.jwks_url cfg.refresh_interval))
