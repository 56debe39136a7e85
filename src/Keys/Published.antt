-- ===== src/Keys/Published.antt =====
-- Where the keys of the JWKS cache come from, whatever lookups were made before.
use csi_secret_age.Prelude.{
  ℕ, ℤ, Text, List, In, ◌≡◌, refl, arith, nat_eq, Bool-cases, Option, none, some, Result, ok, err,
  inl, inr,
}
use csi_secret_age.Prelude.Maps.{Map, lookup}
use csi_secret_age.Jwks.{JwksCache, cached, refetch, or_refetch, locked_get, or_locked_get, get_key}
use csi_secret_age.Jwks.Freshness.{
  Holds, Source, hit, hit_locked, refreshed, fallback, get_key-Source,
}
use csi_secret_age.Keys.{PublicKey, KeyError, Jwk, KeyLibrary, parse_jwks_keys}
use csi_secret_age.Keys.Usable.{IsUsable, parse_jwks_keys-IsUsable}
use csi_secret_age.Keys.Fetch.{
  Response, FetchError, lift_document, new_jwks_cache, keys_of_body, fetch,
}

-- `served` are the answers of the endpoint.
module _ (lib : KeyLibrary) (served : List (Result Text Response)) where
  -- A document that the endpoint served has the key, for signatures and with this id.
  pub record IsPublished (kid : Text) (key : PublicKey) : Type 0 where
    pub resp : Response
    pub answered : In (ok resp) served
    pub found : resp.status_code ≡ 200
    pub json : Text
    pub document : resp.body ≡ ok json
    pub jwks : List Jwk
    pub read : lib.unmarshal_jwks json ≡ ok jwks
    pub usable : IsUsable lib jwks kid key

  -- The caches that calls of `getKey` lead to; `others` stands for calls of other goroutines that
  -- end between the two locks.
  pub data Lived (refresh : ℤ) : JwksCache PublicKey → Type 0 where
    started : {c : JwksCache PublicKey} → c ≡ new_jwks_cache refresh → Lived refresh c
    called :
        {c d e : JwksCache PublicKey} (start now done : ℕ) (kid : Text)
        (resp : Result Text Response) (others : JwksCache PublicKey → JwksCache PublicKey)
        → Lived refresh c
        → In resp served
        → others c ≡ d
        → Lived refresh d
        → (get_key start now done kid (fetch lib resp) others c).1 ≡ e
        → Lived refresh e

  abbrev pub AllPublished : JwksCache PublicKey → Type 0
  AllPublished c = (kid : Text) (key : PublicKey) → Holds c kid key → IsPublished kid key

  lift_document-ok :
      (r : Result KeyError (Map PublicKey)) (keys : Map PublicKey)
      → lift_document r ≡ ok keys
      → r ≡ ok keys
  lift_document-ok (ok keys) out h = ground arith
  lift_document-ok (err e) out h = absurd (ground arith)

  keys_of_body-ok :
      (body : Result Text Text) (keys : Map PublicKey)
      → keys_of_body lib body ≡ ok keys
      → (json : Text) × (body ≡ ok json) × (parse_jwks_keys lib json ≡ ok keys)
  keys_of_body-ok (ok json) keys h =
      (json, refl, lift_document-ok (parse_jwks_keys lib json) keys h)
  keys_of_body-ok (err e) keys h = absurd (ground arith)

  -- A fetch that succeeds was answered with status 200 and a key set.
  pub record Fetched (resp : Result Text Response) (keys : Map PublicKey) : Type 0 where
    pub answer : Response
    pub same : resp ≡ ok answer
    pub found : answer.status_code ≡ 200
    pub json : Text
    pub document : answer.body ≡ ok json
    pub parsed : parse_jwks_keys lib json ≡ ok keys

  fetch-Fetched :
      (resp : Result Text Response) (keys : Map PublicKey)
      → fetch lib resp ≡ ok keys
      → Fetched resp keys
  unfolding fetch
  fetch-Fetched (err e) keys h = absurd (ground arith)
  fetch-Fetched (ok answer) keys h = elim (Bool-cases (nat_eq answer.status_code 200)) [
    | inr other ↦ absurd (let failed = rw (other, fetch) at h in ground arith)
    | inl found ↦
        let (json, document, parsed) = keys_of_body-ok answer.body keys (rw (found, fetch) at h) in
        record {
          answer = answer;
          same = refl;
          found = ground arith;
          json = json;
          document = document;
          parsed = parsed;
        }
  ]

  fetch-IsPublished :
      (resp : Result Text Response) (keys : Map PublicKey) (kid : Text) (key : PublicKey)
      → In resp served
      → fetch lib resp ≡ ok keys
      → lookup kid keys ≡ some key
      → IsPublished kid key
  fetch-IsPublished resp keys kid key i h held =
      let f = fetch-Fetched resp keys h in
      let (filled, (jwks, read, all)) = parse_jwks_keys-IsUsable lib f.json keys f.parsed in
      record {
        resp = f.answer;
        answered = rw f.same at i;
        found = f.found;
        json = f.json;
        document = f.document;
        jwks = jwks;
        read = read;
        usable = all kid key held;
      }

  refetch-AllPublished :
      (done : ℕ) (kid : Text) (resp : Result Text Response) (r : Result FetchError (Map PublicKey))
      (c : JwksCache PublicKey)
      → In resp served
      → fetch lib resp ≡ r
      → AllPublished c
      → AllPublished (refetch done kid r c).1
  refetch-AllPublished done kid resp (err e) c i same all = all
  refetch-AllPublished done kid resp (ok keys) c i same all = λ k key (held, kept, found).
      let this : keys ≡ held = ground arith in
      fetch-IsPublished resp keys k key i same (rw this found)

  locked-AllPublished :
      (done : ℕ) (kid : Text) (resp : Result Text Response) (c : JwksCache PublicKey)
      (o : Option PublicKey)
      → In resp served
      → AllPublished c
      → AllPublished (or_refetch done kid (fetch lib resp) c o).1
  locked-AllPublished done kid resp c none i all =
      refetch-AllPublished done kid resp (fetch lib resp) c i refl all
  locked-AllPublished done kid resp c (some key) i all = all

  module _ (start now done : ℕ) (kid : Text) (resp : Result Text Response)
      (others : JwksCache PublicKey → JwksCache PublicKey) (c : JwksCache PublicKey)
      (i : In resp served) where
    called-AllPublished :
        (o : Option PublicKey)
        → AllPublished c
        → AllPublished (others c)
        → AllPublished (or_locked_get now done kid (fetch lib resp) others c o).1
    unfolding locked_get
    called-AllPublished none before between =
        locked-AllPublished done kid resp (others c) (cached now kid (others c)) i between
    called-AllPublished (some key) before between = before

    get_key-AllPublished :
        AllPublished c
        → AllPublished (others c)
        → AllPublished (get_key start now done kid (fetch lib resp) others c).1
    unfolding get_key
    get_key-AllPublished = called-AllPublished (cached start kid c)

    Source-IsPublished :
        {c' : JwksCache PublicKey} (key : PublicKey)
        → Source start now done kid (fetch lib resp) others c key c'
        → AllPublished c
        → AllPublished (others c)
        → IsPublished kid key
    Source-IsPublished key (hit young holds) before between = before kid key holds
    Source-IsPublished key (hit_locked young holds) before between = between kid key holds
    Source-IsPublished key (refreshed keys got found) before between =
        fetch-IsPublished resp keys kid key i got found
    Source-IsPublished key (fallback e failed holds) before between = between kid key holds

  Lived-AllPublished : {refresh : ℤ} {c : JwksCache PublicKey} → Lived refresh c → AllPublished c
  Lived-AllPublished (started e) =
      λ kid key (keys, held, found). absurd (let none_held = e in ground arith)
  Lived-AllPublished (called {c} start now done kid resp others l i e m last) = rw last at (
      get_key-AllPublished start now done kid resp others c i (Lived-AllPublished l)
        (rw (← e) at (Lived-AllPublished m)))

  -- Whatever lookups were made before, and whatever other goroutines do between the two locks, a
  -- key that `getKey` answers is that of an RSA entry for signatures with the id asked for, in a
  -- document that the endpoint served with status 200.
  pub get_key-IsPublished :
      {refresh : ℤ} {c d : JwksCache PublicKey} (start now done : ℕ) (kid : Text)
      (resp : Result Text Response) (others : JwksCache PublicKey → JwksCache PublicKey)
      (key : PublicKey)
      → Lived refresh c
      → In resp served
      → others c ≡ d
      → Lived refresh d
      → (get_key start now done kid (fetch lib resp) others c).0 ≡ ok key
      → IsPublished kid key
  get_key-IsPublished {c = c} start now done kid resp others key l i e m h =
      Source-IsPublished start now done kid resp others c i key
        (get_key-Source start now done kid (fetch lib resp) others c key h) (Lived-AllPublished l)
        (rw (← e) at (Lived-AllPublished m))
