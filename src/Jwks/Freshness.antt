-- ===== src/Jwks/Freshness.antt =====
-- Which key the JWKS cache answers with.
use csi_secret_age.Prelude.{
  ℕ, ◌-◌, ◌<◌, Text, ◌≡◌, refl, ap, ◌∙◌, arith, Option, none, some, Result, ok, err,
}
use csi_secret_age.Prelude.Maps.{Map, lookup}
use csi_secret_age.Jwks.{
  JwksCache, key_of, cached, fetched_key, stale_key, refetch, or_refetch, locked_get, or_locked_get,
  get_key,
}

module _ {Key : Type 0} where
  -- The key set of the cache has the key.
  abbrev pub Holds : JwksCache Key → Text → Key → Type 0
  Holds c kid key = (keys : Map Key) × (c.keys ≡ some keys) × (lookup kid keys ≡ some key)

  key_of-Holds :
      (kid : Text) (c : JwksCache Key) (key : Key) (o : Option (Map Key))
      → c.keys ≡ o
      → key_of kid o ≡ some key
      → Holds c kid key
  key_of-Holds kid c key none e h = cc
  key_of-Holds kid c key (some keys) e h = (keys, e, h)

  cached-fresh :
      (now : ℕ) (kid : Text) (c : JwksCache Key) (key : Key)
      → cached now kid c ≡ some key
      → (now - c.last_fetch < c.refresh) × Holds c kid key
  unfolding cached
  cached-fresh now kid c key h =
      let young : now - c.last_fetch < c.refresh = ground arith in
      let found : key_of kid c.keys ≡ some key = ground arith in
      (young, key_of-Holds kid c key c.keys refl found)

module _ {Key E : Type 0} where
  -- The key and the cache that is left, against the cache that was found and the fetch.
  pub data Source (start now done : ℕ) (kid : Text) (fetched : Result E (Map Key))
      (others : JwksCache Key → JwksCache Key) (c : JwksCache Key) (key : Key)
      : JwksCache Key → Type 0 where
    hit :
        start - c.last_fetch < c.refresh
        → Holds c kid key
        → Source start now done kid fetched others c key c
    hit_locked :
        now - (others c).last_fetch < (others c).refresh
        → Holds (others c) kid key
        → Source start now done kid fetched others c key (others c)
    refreshed :
        (keys : Map Key)
        → fetched ≡ ok keys
        → lookup kid keys ≡ some key
        → Source start now done kid fetched others c key
            (record (others c) { keys = some keys; last_fetch = done })
    fallback :
        (e : E)
        → fetched ≡ err e
        → Holds (others c) kid key
        → Source start now done kid fetched others c key (others c)

  fetched_key-ok :
      (kid : Text) (o : Option Key) (key : Key) → fetched_key {E = E} kid o ≡ ok key → o ≡ some key
  fetched_key-ok kid none key h = cc
  fetched_key-ok kid (some k) key h = ground arith

  stale_key-ok : (e : E) (o : Option Key) (key : Key) → stale_key e o ≡ ok key → o ≡ some key
  stale_key-ok e none key h = cc
  stale_key-ok e (some k) key h = ground arith

  module _ (start now done : ℕ) (kid : Text) (fetched : Result E (Map Key))
      (others : JwksCache Key → JwksCache Key) (c : JwksCache Key) where
    refetch-Source :
        (key : Key) (r : Result E (Map Key))
        → fetched ≡ r
        → (refetch done kid r (others c)).0 ≡ ok key
        → Source start now done kid fetched others c key (refetch done kid r (others c)).1
    refetch-Source key (err e) same h =
        fallback e same
          (key_of-Holds kid (others c) key (others c).keys refl (stale_key-ok e _ key h))
    refetch-Source key (ok keys) same h =
        refreshed keys same (fetched_key-ok kid (lookup kid keys) key h)

    locked_get-Source :
        (key : Key) (o : Option Key)
        → cached now kid (others c) ≡ o
        → (or_refetch done kid fetched (others c) o).0 ≡ ok key
        → Source start now done kid fetched others c key
            (or_refetch done kid fetched (others c) o).1
    locked_get-Source key none miss h = refetch-Source key fetched refl h
    locked_get-Source key (some k) found h =
        let same : k ≡ key = ground arith in
        let (young, holds) = cached-fresh now kid (others c) key (found ∙ ap some same) in
        hit_locked young holds

    get_key_from :
        (key : Key) (o : Option Key)
        → cached start kid c ≡ o
        → (or_locked_get now done kid fetched others c o).0 ≡ ok key
        → Source start now done kid fetched others c key
            (or_locked_get now done kid fetched others c o).1
    unfolding locked_get
    get_key_from key none miss h = locked_get-Source key _ refl h
    get_key_from key (some k) found h =
        let same : k ≡ key = ground arith in
        let (young, holds) = cached-fresh start kid c key (found ∙ ap some same) in hit young holds

    -- A key that is answered stands in a key set that was fetched less than the refresh interval
    -- ago, at the first look or under the write lock, or in the one fetched now, which the cache
    -- then keeps with its time; only when that fetch fails may it come from an older set.
    pub get_key-Source :
        (key : Key)
        → (get_key start now done kid fetched others c).0 ≡ ok key
        → Source start now done kid fetched others c key
            (get_key start now done kid fetched others c).1
    unfolding get_key
    get_key-Source key h = get_key_from key _ refl h
