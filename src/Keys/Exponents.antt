-- ===== src/Keys/Exponents.antt =====
-- The exponent of a key, which is cut to a machine integer.
use csi_secret_age.Prelude.{
  ℕ, pos, ◌+◌, ◌*◌, ◌^◌, ◌≤◌, ◌<◌, Text, List, [], ◌∷◌, ◌≡◌, ◌∙◌, arith, codes, ◌==◌, Option, none,
  some, ok, All, length, inl, inr, Bool-cases,
}
use csi_secret_age.Base64.{decode_raw_url}
use csi_secret_age.Base64.Bytes.{IsByte, decode_raw_url-IsByte}
use csi_secret_age.Keys.{
  PublicKey, Jwk, KeyLibrary, set_bytes, key_of_bytes, parse_rsa_public_key_from_jwk,
}

-- A bound on the number that bytes spell after a number below `m`.
abbrev scale : ℕ → List ℕ → ℕ
scale m [] = m
scale m (b ∷ bytes) = scale (m * 256) bytes

set_bytes-lt-scale :
    (acc m : ℕ) (bytes : List ℕ) → acc < m → All IsByte bytes → set_bytes acc bytes < scale m bytes
unfolding set_bytes
set_bytes-lt-scale acc m [] h bs = h
set_bytes-lt-scale acc m (b ∷ bytes) h (hb, bs) =
    set_bytes-lt-scale (acc * 256 + b) (m * 256) bytes (omega arith) bs

scale-le : (bytes : List ℕ) → length bytes ≤ 7 → scale 1 bytes ≤ 2 ^ 56
scale-le [] h = omega arith
scale-le (a ∷ []) h = omega arith
scale-le (a ∷ b ∷ []) h = omega arith
scale-le (a ∷ b ∷ c ∷ []) h = omega arith
scale-le (a ∷ b ∷ c ∷ d ∷ []) h = omega arith
scale-le (a ∷ b ∷ c ∷ d ∷ e ∷ []) h = omega arith
scale-le (a ∷ b ∷ c ∷ d ∷ e ∷ f ∷ []) h = omega arith
scale-le (a ∷ b ∷ c ∷ d ∷ e ∷ f ∷ g ∷ []) h = omega arith
scale-le (a ∷ b ∷ c ∷ d ∷ e ∷ f ∷ g ∷ i ∷ bytes) h = absurd (omega arith)

-- Where the number fits, `Int64` is the number.
abbrev pub KeepsSmall : KeyLibrary → Type 0
KeepsSmall lib = (v : ℕ) → v < 2 ^ 63 → lib.int64 v ≡ pos v

key_of_bytes-exponent :
    (lib : KeyLibrary) (kid : Text) (n : Option (List ℕ)) (bytes : List ℕ) (key : PublicKey)
    → key_of_bytes lib kid n (some bytes) ≡ ok key
    → key.exponent ≡ lib.int64 (set_bytes 0 bytes)
key_of_bytes-exponent lib kid none bytes key h = absurd (ground arith)
key_of_bytes-exponent lib kid (some n) bytes key h = ground arith

-- The exponent of a key of a key set is the number that its bytes spell, most significant first, as
-- long as there are at most seven of them; it is then below 2 ^ 56. Assumes that the conversion to
-- an `int` keeps a number below 2 ^ 63.
pub parse_rsa_public_key_from_jwk-exponent :
    (lib : KeyLibrary) (jwk : Jwk) (key : PublicKey) (bytes : List ℕ)
    → KeepsSmall lib
    → parse_rsa_public_key_from_jwk lib jwk ≡ ok key
    → decode_raw_url jwk.e ≡ some bytes
    → length bytes ≤ 7
    → (key.exponent ≡ pos (set_bytes 0 bytes)) × (set_bytes 0 bytes < 2 ^ 56)
unfolding parse_rsa_public_key_from_jwk
parse_rsa_public_key_from_jwk-exponent lib jwk key bytes small h decoded short =
    let low : set_bytes 0 bytes < scale 1 bytes =
      set_bytes-lt-scale 0 1 bytes (omega arith) (decode_raw_url-IsByte jwk.e bytes decoded) in
    let top = scale-le bytes short in
    let fits : set_bytes 0 bytes < 2 ^ 56 = omega arith in
    let read : key_of_bytes lib jwk.kid (decode_raw_url jwk.n) (decode_raw_url jwk.e) ≡ ok key =
      elim (Bool-cases (jwk.kty == codes "RSA")) [
        | inl rsa ↦ rw (rsa, parse_rsa_public_key_from_jwk) at h
        | inr other ↦ absurd (ground arith)
      ] in
    (
      key_of_bytes-exponent lib jwk.kid (decode_raw_url jwk.n) bytes key (rw decoded at read)
          ∙ small (set_bytes 0 bytes) (omega arith),
      fits,
    )
