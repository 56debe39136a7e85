-- ===== src/Config.antt =====
-- Where secret settings and the master key come from: `resolveSecretValue`, `ResolveSecrets` and
-- `EnvKeyProvider` of config.go and `resolveKeyProvider` of keyprovider.go. Reading a file is a
-- parameter, and so are the cloud providers.
pub mod Sources
pub mod Settings
use csi_secret_age.Prelude.{
  codes, Text, List, [], ◌∷◌, Bool, true, false, ◌==◌, if◌then◌else◌, Option, none, some, Result,
  ok, err,
}
use csi_secret_age.Strings.{trim_space}

-- One element of the table in `ResolveSecrets`; `inline` stands for the field that the pointer
-- names.
pub record Resolver : Type 0 where
  pub name : Text
  pub inline : Text
  pub file_path : Text

pub record ResolveError : Type 0 where
  pub name : Text
  pub cause : Text

module _ (read_file : Text → Result Text Text) where
  abbrev pub trimmed : Result Text Text → Result Text Text
  trimmed (ok content) = ok (trim_space content)
  trimmed (err e) = err e

  unfoldable pub resolve_secret_value : Text → Text → Result Text Text
  resolve_secret_value inline file_path =
      if file_path == [] then ok inline else trimmed (read_file file_path)

  abbrev pub store :
      Resolver
      → Result Text Text
      → List Resolver
      → List Resolver × Option ResolveError
      → List Resolver × Option ResolveError
  store r (err e) untouched rest = (r ∷ untouched, some (record { name = r.name; cause = e }))
  store r (ok value) untouched rest = (record r { inline = value } ∷ rest.0, rest.1)

  -- The fields after the loop, and the error with which it stopped.
  unfoldable pub resolve_secrets : List Resolver → List Resolver × Option ResolveError
  resolve_secrets [] = ([], none)
  resolve_secrets (r ∷ rs) =
      let rest = resolve_secrets rs in store r (resolve_secret_value r.inline r.file_path) rs rest

-- `MasterKeyProvider`: the environment, or a provider that is called.
pub data Provider (Cloud : Type 0) : Type 0 where
  env : Text → Provider Cloud
  cloud : Cloud → Provider Cloud

module _ {Cloud : Type 0} where
  -- `p(cfg)` of every registered constructor, in their order; none where it returns nil.
  unfoldable pub resolve_key_provider : List (Option Cloud) → Text → Provider Cloud
  resolve_key_provider [] master_key = env master_key
  resolve_key_provider (none ∷ ps) master_key = resolve_key_provider ps master_key
  resolve_key_provider (some p ∷ ps) master_key = cloud p

  unfoldable pub get_master_key : (Cloud → Result Text Text) → Provider Cloud → Result Text Text
  get_master_key call (env key) =
      if key == [] then err (codes "master key not found in environment") else ok key
  get_master_key call (cloud p) = call p
