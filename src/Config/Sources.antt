-- ===== src/Config/Sources.antt =====
-- What a setting holds once it is resolved.
use csi_secret_age.Prelude.{
  Text, List, [], ◌∷◌, ◌≡◌, ◌≢◌, refl, arith, ◌==◌, ==_iff, Option, none, Result, ok, err,
  Bool-cases, inl, inr,
}
use csi_secret_age.Strings.{trim_space}
use csi_secret_age.Config.{
  Resolver, ResolveError, trimmed, resolve_secret_value, store, resolve_secrets,
}

module _ (read_file : Text → Result Text Text) where
  -- The value of a setting: that of its file, without the white space around it, where a file is
  -- named, and otherwise the inline one.
  pub data Resolves (inline file_path value : Text) : Type 0 where
    from_file :
        (content : Text)
        → file_path ≢ []
        → read_file file_path ≡ ok content
        → value ≡ trim_space content
        → Resolves inline file_path value
    from_inline : file_path ≡ [] → value ≡ inline → Resolves inline file_path value

  -- The settings after, against the settings before.
  pub data ResolvesAll : List Resolver → List Resolver → Type 0 where
    done : ResolvesAll [] []
    next :
        {r : Resolver} {rs out : List Resolver} (value : Text)
        → Resolves r.inline r.file_path value
        → ResolvesAll rs out
        → ResolvesAll (r ∷ rs) (record r { inline = value } ∷ out)

  trimmed-Resolves :
      (inline file_path value : Text) (r : Result Text Text)
      → file_path ≢ []
      → read_file file_path ≡ r
      → trimmed read_file r ≡ ok value
      → Resolves inline file_path value
  trimmed-Resolves inline file_path value (ok content) named read h =
      from_file content named read (ground arith)
  trimmed-Resolves inline file_path value (err e) named read h = absurd (ground arith)

  value-Resolves :
      (inline file_path value : Text)
      → resolve_secret_value read_file inline file_path ≡ ok value
      → Resolves inline file_path value
  unfolding resolve_secret_value
  value-Resolves inline file_path value h = elim (Bool-cases (file_path == [])) [
    | inl unnamed ↦ from_inline ((==_iff file_path []).0 unnamed) (ground arith)
    | inr named ↦
        trimmed-Resolves inline file_path value _ (ground (arith, ==_iff file_path [])) refl
          (rw (named, resolve_secret_value) at h)
  ]

  store-ResolvesAll :
      (r : Resolver) (rs : List Resolver) (v : Result Text Text)
      (rest : List Resolver × Option ResolveError)
      → resolve_secret_value read_file r.inline r.file_path ≡ v
      → (rest.1 ≡ none → ResolvesAll rs rest.0)
      → (store read_file r v rs rest).1 ≡ none
      → ResolvesAll (r ∷ rs) (store read_file r v rs rest).0
  store-ResolvesAll r rs (ok value) rest e all h =
      next value (value-Resolves r.inline r.file_path value e) (all h)
  store-ResolvesAll r rs (err x) rest e all h = absurd (ground arith)

  -- When no error is reported every setting holds the trimmed content of its file, if it names one,
  -- and otherwise its inline value: a file takes precedence, and none is passed over.
  pub resolve_secrets-ResolvesAll :
      (rs : List Resolver)
      → (resolve_secrets read_file rs).1 ≡ none
      → ResolvesAll rs (resolve_secrets read_file rs).0
  unfolding resolve_secrets
  resolve_secrets-ResolvesAll [] h = done
  resolve_secrets-ResolvesAll (r ∷ rs) h =
      store-ResolvesAll r rs _ (resolve_secrets read_file rs) refl (resolve_secrets-ResolvesAll rs)
        h
