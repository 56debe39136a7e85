-- ===== src/Tests/Keying.antt =====
-- Runs of the parsing of keys and of the choice of their source.
use csi_secret_age.Prelude.{
  pos, ◌<◌, ◌≡◌, ◌^◌, refl, Text, [], ◌∷◌, codes, ◌==◌, none, some, true, inl, Result, ok, arith,
}
use csi_secret_age.Prelude.Maps.{Map, insert, lookup}
use csi_secret_age.Base64.{decode_raw_url}
use csi_secret_age.Keys.{
  PublicKey, not_rsa, KeyLibrary, Jwk, set_bytes, parse_rsa_public_key_from_jwk, add_key,
  collect_keys, parse_jwks_keys, JwtKeyConfig, static_jwks, cached_jwks, build_jwt_keyfunc,
}
use csi_secret_age.Jwks.{cached, locked_get, get_key}
use csi_secret_age.Keys.Fetch.{Response, new_jwks_cache, fetch}
use csi_secret_age.Keys.Published.{started}
use csi_secret_age.Keys.Verifying.{TokenHeader, Lookup, key_for}
use csi_secret_age.Keys.Trusted.{Trusted, key_for-Trusted}
use csi_secret_age.Keys.Exponents.{parse_rsa_public_key_from_jwk-exponent}

abbrev pub jwk : Jwk
jwk = record {
  kty = codes "RSA";
  kid = codes "k1";
  n = codes "AQ";
  e = codes "AQAB";
  alg = codes "RS256";
  use' = codes "sig";
}

-- The same key for encryption, which is skipped.
abbrev pub other_use : Jwk
other_use = record jwk { kid = codes "k2"; use' = codes "enc" }

abbrev pub key : PublicKey
key = record { modulus = 1; exponent = pos 65537 }

abbrev pub library : KeyLibrary
library = record {
  Block = Text;
  decode_pem = λ pem. none;
  parse_pkix = λ block. ok not_rsa;
  parse_pkcs1 = λ block. ok not_rsa;
  unmarshal_jwks = λ json. ok (other_use ∷ jwk ∷ []);
  int64 = λ v. pos v;
}

abbrev pub found_keys : Map PublicKey
found_keys = (codes "k1", key) ∷ []

exponent_run : decode_raw_url (codes "AQAB") ≡ some (1 ∷ 0 ∷ 1 ∷ [])
unfolding decode_raw_url
exponent_run = refl

key_run : parse_rsa_public_key_from_jwk library jwk ≡ ok key
unfolding parse_rsa_public_key_from_jwk ◌==◌ decode_raw_url set_bytes
key_run = refl

keys_run : parse_jwks_keys library (codes "{}") ≡ ok found_keys
unfolding parse_jwks_keys collect_keys add_key ◌==◌ parse_rsa_public_key_from_jwk decode_raw_url
    insert set_bytes
keys_run = refl

parse_rsa_public_key_from_jwk-exponent_example :
    (key.exponent ≡ pos (set_bytes 0 (1 ∷ 0 ∷ 1 ∷ []))) × (set_bytes 0 (1 ∷ 0 ∷ 1 ∷ []) < 2 ^ 56)
parse_rsa_public_key_from_jwk-exponent_example =
    parse_rsa_public_key_from_jwk-exponent library jwk key (1 ∷ 0 ∷ 1 ∷ []) (λ v h. refl) key_run
      exponent_run (omega arith)

abbrev sources : JwtKeyConfig
sources = record {
  public_key_pem = [];
  jwks_url = [];
  jwks_json = codes "{}";
  refresh_interval = pos 0;
  audience = [];
  issuer = [];
}

sources_run : build_jwt_keyfunc library sources ≡ ok (some (static_jwks found_keys))
unfolding build_jwt_keyfunc ◌==◌ parse_jwks_keys collect_keys add_key parse_rsa_public_key_from_jwk
    decode_raw_url insert set_bytes
sources_run = refl

-- The key set is behind a URL.
abbrev url_source : JwtKeyConfig
url_source = record sources {
  jwks_url = codes "https://idp/keys";
  jwks_json = [];
  refresh_interval = pos 10;
}

abbrev answer : Result Text Response
answer = ok (record { status_code = 200; body = ok (codes "{}") })

abbrev first_lookup : Lookup
first_lookup = record { start = 1; now = 2; done = 3; resp = answer; others = λ c. c }

abbrev header : TokenHeader
header = record { rsa_method = true; kid = some (codes "k1") }

url_run :
    key_for library first_lookup
      (new_jwks_cache (pos 10))
      (cached_jwks (codes "https://idp/keys") (pos 10))
      header
    ≡ ok key
unfolding key_for ◌==◌ get_key cached locked_get fetch parse_jwks_keys collect_keys add_key
    parse_rsa_public_key_from_jwk decode_raw_url insert lookup set_bytes
url_run = refl

url_source_run :
    build_jwt_keyfunc library url_source
    ≡ ok (some (cached_jwks (codes "https://idp/keys") (pos 10)))
unfolding build_jwt_keyfunc ◌==◌
url_source_run = refl

key_for-Trusted_example : (true ≡ true) × Trusted library url_source (answer ∷ []) header key
key_for-Trusted_example =
    key_for-Trusted library url_source (answer ∷ []) header first_lookup (new_jwks_cache (pos 10))
      key (cached_jwks (codes "https://idp/keys") (pos 10)) url_source_run (started refl) (inl refl)
      refl (started refl) url_run
