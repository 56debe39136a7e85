-- ===== src/Providers/Fetched.antt =====
-- Where the master key comes from.
use csi_secret_age.Prelude.{
  ℕ, Text, List, [], ◌∷◌, ◌≡◌, ◌≢◌, refl, ap, ◌||◌, arith, codes, ◌==◌, ==_iff, none, some, Result,
  ok, err, Bool-cases, Option-cases, inl, inr,
}
use csi_secret_age.Base64.{decode_std}
use csi_secret_age.Config.{env, resolve_key_provider, get_master_key}
use csi_secret_age.Config.Settings.{Config}
use csi_secret_age.Providers.{
  Services, not_empty, GcpClient, gcp_age_key, aws_age_key, CloudProvider, gcp_kms, aws_kms,
  cloud_master_key, new_gcp_client, AwsClient, new_aws_client, with_gcp_client, gcp_provider,
  with_aws_client, aws_provider, registered,
}

module _ (cloud : Services) (cfg : Config) where
  -- The master key: what the service decrypts the configured ciphertext to, with Google's before
  -- Amazon's, and otherwise the configured key.
  pub data FetchedFrom (key : Text) : Type 0 where
    from_gcp :
        (kms : cloud.GcpKms) (ct : List ℕ)
        → cloud.new_gcp_kms ≡ ok kms
        → cfg.gcp_kms_ciphertext ≢ []
        → cfg.gcp_kms_key_name ≢ []
        → decode_std cfg.gcp_kms_ciphertext ≡ some ct
        → cloud.gcp_decrypt kms cfg.gcp_kms_key_name ct ≡ ok key
        → FetchedFrom key
    from_aws :
        (kms : cloud.AwsKms) (ct : List ℕ)
        → gcp_provider cloud cfg ≡ none
        → cloud.new_aws_kms ≡ ok kms
        → cfg.kms_ciphertext ≢ []
        → decode_std cfg.kms_ciphertext ≡ some ct
        → cloud.aws_decrypt kms ct ≡ ok key
        → FetchedFrom key
    from_env :
        gcp_provider cloud cfg ≡ none
        → aws_provider cloud cfg ≡ none
        → key ≡ cfg.master_key
        → FetchedFrom key

  not_empty-ok :
      (message key : Text) (r : Result Text Text)
      → not_empty message r ≡ ok key
      → (r ≡ ok key) × (key ≢ [])
  not_empty-ok message key (err e) h = absurd (ground arith)
  not_empty-ok message key (ok []) h = absurd (ground arith)
  not_empty-ok message key (ok (c ∷ s)) h =
      let same : c ∷ s ≡ key = ground arith in (ap ok same, rw (← same) (λ e. cc))

  with_gcp_client-some :
      (r : Result Text cloud.GcpKms) (p : CloudProvider cloud)
      → with_gcp_client cloud cfg (new_gcp_client cloud cfg.gcp_kms_key_name r) ≡ some p
      → (kms : cloud.GcpKms) × (r ≡ ok kms)
        × (p
            ≡ gcp_kms cfg.gcp_kms_ciphertext
                (record { kms = kms; key_name = cfg.gcp_kms_key_name }))
  with_gcp_client-some (ok kms) p h = (kms, refl, ground arith)
  with_gcp_client-some (err e) p h = absurd (ground arith)

  with_aws_client-some :
      (r : Result Text cloud.AwsKms) (p : CloudProvider cloud)
      → with_aws_client cloud cfg (new_aws_client cloud r) ≡ some p
      → (kms : cloud.AwsKms) × (r ≡ ok kms)
        × (p ≡ aws_kms cfg.kms_ciphertext (record { kms = kms }))
  with_aws_client-some (ok kms) p h = (kms, refl, ground arith)
  with_aws_client-some (err e) p h = absurd (ground arith)

  decoded_gcp :
      (c : GcpClient cloud) (b64 key : Text)
      → gcp_age_key cloud c b64 ≡ ok key
      → ((ct : List ℕ) × (decode_std b64 ≡ some ct)
          × (cloud.gcp_decrypt c.kms c.key_name ct ≡ ok key))
        × (key ≢ [])
  unfolding gcp_age_key
  decoded_gcp c b64 key h = elim (Option-cases (decode_std b64)) [
    | inl bad ↦ absurd (let failed = rw (bad, gcp_age_key) at h in ground arith)
    | inr (ct, decoded) ↦
        let (got, filled) =
          not_empty-ok (codes "GCP KMS") key (cloud.gcp_decrypt c.kms c.key_name ct)
            (rw (decoded, gcp_age_key) at h) in
        ((ct, decoded, got), filled)
  ]

  decoded_aws :
      (c : AwsClient cloud) (b64 key : Text)
      → aws_age_key cloud c b64 ≡ ok key
      → ((ct : List ℕ) × (decode_std b64 ≡ some ct) × (cloud.aws_decrypt c.kms ct ≡ ok key))
        × (key ≢ [])
  unfolding aws_age_key
  decoded_aws c b64 key h = elim (Option-cases (decode_std b64)) [
    | inl bad ↦ absurd (let failed = rw (bad, aws_age_key) at h in ground arith)
    | inr (ct, decoded) ↦
        let (got, filled) =
          not_empty-ok (codes "AWS KMS") key (cloud.aws_decrypt c.kms ct)
            (rw (decoded, aws_age_key) at h) in
        ((ct, decoded, got), filled)
  ]

  gcp-FetchedFrom :
      (p : CloudProvider cloud) (key : Text)
      → gcp_provider cloud cfg ≡ some p
      → cloud_master_key cloud p ≡ ok key
      → FetchedFrom key × (key ≢ [])
  unfolding gcp_provider cloud_master_key
  gcp-FetchedFrom p key chosen h =
      elim (Bool-cases (cfg.gcp_kms_ciphertext == [] || cfg.gcp_kms_key_name == [])) [
        | inl unset ↦ absurd (ground arith)
        | inr set ↦
            let (kms, made, same) =
              with_gcp_client-some cloud.new_gcp_kms p (rw (set, gcp_provider) at chosen) in
            let ((ct, decoded, got), filled) =
              decoded_gcp _ cfg.gcp_kms_ciphertext key (rw same at h) in
            (
              from_gcp kms ct made (ground (arith, ==_iff cfg.gcp_kms_ciphertext []))
                  (ground (arith, ==_iff cfg.gcp_kms_key_name [])) decoded got,
              filled,
            )
      ]

  aws-FetchedFrom :
      (p : CloudProvider cloud) (key : Text)
      → gcp_provider cloud cfg ≡ none
      → aws_provider cloud cfg ≡ some p
      → cloud_master_key cloud p ≡ ok key
      → FetchedFrom key × (key ≢ [])
  unfolding aws_provider cloud_master_key
  aws-FetchedFrom p key no_gcp chosen h = elim (Bool-cases (cfg.kms_ciphertext == [])) [
    | inl unset ↦ absurd (ground arith)
    | inr set ↦
        let (kms, made, same) =
          with_aws_client-some cloud.new_aws_kms p (rw (set, aws_provider) at chosen) in
        let ((ct, decoded, got), filled) = decoded_aws _ cfg.kms_ciphertext key (rw same at h) in
        (
          from_aws kms ct no_gcp made (ground (arith, ==_iff cfg.kms_ciphertext [])) decoded got,
          filled,
        )
  ]

  -- In a build with both cloud providers, a master key that is found is not empty, and it is what
  -- Google's service makes of its configured ciphertext, or, where that one is not configured or has
  -- no client, what Amazon's makes of its, or, where neither is, the configured master key. A service
  -- that is chosen and fails is an error: no other source is tried.
  pub get_master_key-FetchedFrom :
      (key : Text)
      → get_master_key
          (cloud_master_key cloud)
          (resolve_key_provider (registered cloud cfg) cfg.master_key)
        ≡ ok key
      → FetchedFrom key × (key ≢ [])
  unfolding get_master_key resolve_key_provider
  get_master_key-FetchedFrom key h = elim (Option-cases (gcp_provider cloud cfg)) [
    | inr (p, chosen) ↦ gcp-FetchedFrom p key chosen (rw chosen at h)
    | inl no_gcp ↦ elim (Option-cases (aws_provider cloud cfg)) [
      | inr (p, chosen) ↦ aws-FetchedFrom p key no_gcp chosen (rw chosen at (rw no_gcp at h))
      | inl no_aws ↦
          let found : get_master_key (cloud_master_key cloud) (env cfg.master_key) ≡ ok key =
            rw no_aws at (rw no_gcp at h) in
          (from_env no_gcp no_aws (ground arith), ground (arith, ==_iff cfg.master_key []))
    ]
  ]
