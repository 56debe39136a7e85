-- ===== src/Tests/Settings.antt =====
-- Runs of the JWKS cache and of the configuration.
use csi_secret_age.Strings.{trim_space}
use csi_secret_age.Prelude.{
  ℕ, Text, List, [], ◌∷◌, ◌≡◌, refl, ap, ◌==◌, if◌then◌else◌, codes, Option, none, some, Result, ok,
  err,
}
use csi_secret_age.Prelude.Maps.{Map, lookup}
use csi_secret_age.Config.{Resolver, ResolveError, resolve_secrets, resolve_secret_value}
use csi_secret_age.Config.Sources.{ResolvesAll, resolve_secrets-ResolvesAll}
use csi_secret_age.Jwks.{JwksCache, get_key, cached, locked_get}
use csi_secret_age.Jwks.Freshness.{Source, get_key-Source}

abbrev old_keys : Map ℕ
old_keys = (codes "k1", 1) ∷ []

abbrev cache : JwksCache ℕ
cache = record { refresh = 10; keys = some old_keys; last_fetch = 5 }

-- What the fetch gives once the key has been rotated.
abbrev rotated : Result Text (Map ℕ)
rotated = ok ((codes "k2", 2) ∷ [])

-- The set is too old and the fetch fails: the old key is answered.
fallback_run : get_key 20 21 22 (codes "k1") (err (codes "timeout")) (λ c. c) cache ≡ (ok 1, cache)
unfolding get_key cached locked_get lookup
fallback_run = refl

rotation_run :
    get_key 20 21 22 (codes "k2") rotated (λ c. c) cache
    ≡ (ok 2, record { refresh = 10; keys = some ((codes "k2", 2) ∷ []); last_fetch = 22 })
unfolding get_key cached locked_get lookup
rotation_run = refl

rotation_ok : (get_key 20 21 22 (codes "k2") rotated (λ c. c) cache).0 ≡ ok 2
unfolding get_key cached locked_get lookup
rotation_ok = refl

get_key-Source_example :
    Source 20 21 22
      (codes "k2")
      rotated
      (λ c. c)
      cache
      2
      (get_key 20 21 22 (codes "k2") rotated (λ c. c) cache).1
get_key-Source_example = get_key-Source 20 21 22 (codes "k2") rotated (λ c. c) cache 2 rotation_ok

abbrev files : Text → Result Text Text
files name =
    if name == codes "/run/key" then ok (codes " AGE-KEY\n") else err (codes "no such file")

abbrev settings : List Resolver
settings =
    record { name = codes "MASTER_KEY"; inline = codes "inline"; file_path = codes "/run/key" }
    ∷ record { name = codes "JWT_JWKS"; inline = codes "{}"; file_path = [] }
    ∷ []

abbrev resolved : List Resolver
resolved =
    record { name = codes "MASTER_KEY"; inline = codes "AGE-KEY"; file_path = codes "/run/key" }
    ∷ record { name = codes "JWT_JWKS"; inline = codes "{}"; file_path = [] }
    ∷ []

settings_run : resolve_secrets files settings ≡ (resolved, none)
unfolding resolve_secrets resolve_secret_value ◌==◌ trim_space
settings_run = refl

resolve_secrets-ResolvesAll_example : ResolvesAll files settings (resolve_secrets files settings).0
resolve_secrets-ResolvesAll_example =
    resolve_secrets-ResolvesAll files settings
      (ap (λ (p : List Resolver × Option ResolveError). p.1) settings_run)
