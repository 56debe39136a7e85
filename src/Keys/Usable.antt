-- ===== src/Keys/Usable.antt =====
-- Which keys of a key set are used, and what their numbers are.
use csi_secret_age.Prelude.{
  Text, List, [], ◌∷◌, ◌≡◌, ◌≢◌, ◌⊎◌, refl, ap, ◌∙◌, false, not, ◌&&◌, arith, codes, ◌==◌, ==_iff,
  some, Result, ok, err, >>=-eq-ok, In, inl, inr, Bool-cases,
}
use csi_secret_age.Prelude.Maps.{Map, lookup, lookup-insert}
use csi_secret_age.Keys.{
  PublicKey, KeyError, Jwk, KeyLibrary, parse_rsa_public_key_from_jwk, store_parsed, add_key,
  collect_keys, some_key, keys_of, parse_jwks_keys,
}

module _ (lib : KeyLibrary) where
  -- The key set has an RSA key for signatures with this id, which reads as this key.
  pub record IsUsable (jwks : List Jwk) (kid : Text) (key : PublicKey) : Type 0 where
    pub jwk : Jwk
    pub listed : In jwk jwks
    pub rsa : jwk.kty ≡ codes "RSA"
    pub signing : (jwk.use' ≡ []) ⊎ (jwk.use' ≡ codes "sig")
    pub id : jwk.kid ≡ kid
    pub named : kid ≢ []
    pub parsed : parse_rsa_public_key_from_jwk lib jwk ≡ ok key

  abbrev pub AllUsable : List Jwk → Map PublicKey → Type 0
  AllUsable jwks keys =
      (kid : Text) (key : PublicKey) → lookup kid keys ≡ some key → IsUsable jwks kid key

  stored-AllUsable :
      (jwks : List Jwk) (jwk : Jwk) (keys next : Map PublicKey) (r : Result KeyError PublicKey)
      → In jwk jwks
      → jwk.kty ≡ codes "RSA"
      → (jwk.use' ≡ []) ⊎ (jwk.use' ≡ codes "sig")
      → parse_rsa_public_key_from_jwk lib jwk ≡ r
      → AllUsable jwks keys
      → store_parsed lib jwk.kid keys r ≡ ok next
      → AllUsable jwks next
  stored-AllUsable jwks jwk keys next (err e) i rsa sig parsed all h = absurd (ground arith)
  stored-AllUsable jwks jwk keys next (ok key) i rsa sig parsed all h =
      elim (Bool-cases (jwk.kid == [])) [
        | inl unnamed ↦ let same : next ≡ keys = ground arith in rw same all
        | inr named ↦ λ kid k found. elim (Bool-cases (jwk.kid == kid)) [
          | inr other ↦ all kid k (ground (arith, lookup-insert jwk.kid kid key keys))
          | inl this ↦
              let got : key ≡ k = ground (arith, lookup-insert jwk.kid kid key keys) in
              record {
                jwk = jwk;
                listed = i;
                rsa = rsa;
                signing = sig;
                id = (==_iff jwk.kid kid).0 this;
                named = ground (arith, ==_iff jwk.kid kid, ==_iff jwk.kid []);
                parsed = parsed ∙ ap ok got;
              }
        ]
      ]

  signs :
      (use' : Text)
      → (not (use' == []) && not (use' == codes "sig")) ≡ false
      → (use' ≡ []) ⊎ (use' ≡ codes "sig")
  signs use' h = elim (Bool-cases (use' == [])) [
    | inl unset ↦ inl ((==_iff use' []).0 unset)
    | inr given ↦ inr ((==_iff use' (codes "sig")).0 (ground arith))
  ]

  add_key-AllUsable :
      (jwks : List Jwk) (jwk : Jwk) (keys next : Map PublicKey)
      → In jwk jwks
      → AllUsable jwks keys
      → add_key lib jwk keys ≡ ok next
      → AllUsable jwks next
  unfolding add_key
  add_key-AllUsable jwks jwk keys next i all h = elim (Bool-cases (jwk.kty == codes "RSA")) [
    | inr other ↦ let same : next ≡ keys = ground arith in rw same all
    | inl rsa ↦ elim (Bool-cases (not (jwk.use' == []) && not (jwk.use' == codes "sig"))) [
      | inl other ↦ let same : next ≡ keys = ground arith in rw same all
      | inr sig ↦
          stored-AllUsable jwks jwk keys next _ i ((==_iff jwk.kty (codes "RSA")).0 rsa)
            (signs jwk.use' sig) refl all (rw sig at (rw (rsa, add_key) at h))
    ]
  ]

  abbrev Within : List Jwk → List Jwk → Type 0
  Within rest jwks = (jwk : Jwk) → In jwk rest → In jwk jwks

  collect_keys-AllUsable :
      (jwks rest : List Jwk) (keys out : Map PublicKey)
      → Within rest jwks
      → AllUsable jwks keys
      → collect_keys lib rest keys ≡ ok out
      → AllUsable jwks out
  unfolding collect_keys
  collect_keys-AllUsable jwks [] keys out w all h =
      let same : out ≡ keys = ground arith in rw same all
  collect_keys-AllUsable jwks (jwk ∷ rest) keys out w all h =
      let (next, added, more) = >>=-eq-ok (add_key lib jwk keys) _ h in
      collect_keys-AllUsable jwks rest next out (λ j i. w j (inr i))
        (add_key-AllUsable jwks jwk keys next (w jwk (inl refl)) all added) more

  some_key-ok : (keys out : Map PublicKey) → some_key lib keys ≡ ok out → (out ≢ []) × (keys ≡ out)
  some_key-ok [] out h = absurd (ground arith)
  some_key-ok (entry ∷ keys) out h = (λ e. absurd (ground arith), ground arith)

  -- A key set that is accepted yields at least one key, and every key that it yields is that of an
  -- RSA entry for signatures with the id under which it is found, which is not empty.
  pub parse_jwks_keys-IsUsable :
      (json : Text) (keys : Map PublicKey)
      → parse_jwks_keys lib json ≡ ok keys
      → (keys ≢ [])
        × ((jwks : List Jwk) × (lib.unmarshal_jwks json ≡ ok jwks) × AllUsable jwks keys)
  unfolding parse_jwks_keys
  parse_jwks_keys-IsUsable json keys h = parsed (lib.unmarshal_jwks json) refl h
    where
      parsed :
          (r : Result Text (List Jwk))
          → lib.unmarshal_jwks json ≡ r
          → keys_of lib r ≡ ok keys
          → (keys ≢ [])
            × ((jwks : List Jwk) × (lib.unmarshal_jwks json ≡ ok jwks) × AllUsable jwks keys)
      parsed (err e) same q = absurd (ground arith)
      parsed (ok jwks) same q =
          let (all, collected, last) = >>=-eq-ok (collect_keys lib jwks []) _ q in
          let (filled, same_keys) = some_key-ok all keys last in
          (
            filled,
            (
              jwks,
              same,
              rw same_keys at (
                  collect_keys-AllUsable jwks jwks [] all (λ j i. i)
                    (λ kid key found. absurd (unfold lookup in ground arith)) collected),
            ),
          )
