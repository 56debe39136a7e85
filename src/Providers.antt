-- ===== src/Providers.antt =====
-- The cloud key providers: gcpkms/gcpkms.go, awskms/kms.go, and their registration in
-- keyprovider_gcpkms.go and keyprovider_kms.go. The clients of the two services are parameters; a
-- plaintext is the text that its bytes are.
pub mod Fetched
use csi_secret_age.Prelude.{
  ℕ, Text, List, [], ◌∷◌, ◌++◌, Bool, true, false, ◌||◌, codes, ◌==◌, if◌then◌else◌, Option, none,
  some, Result, ok, err,
}
use csi_secret_age.Base64.{decode_std}
use csi_secret_age.Config.Settings.{Config}

-- The two services: how a client is made, and `Decrypt`, which for Google takes the key's name.
pub record Services : Type 1 where
  pub GcpKms : Type 0
  pub AwsKms : Type 0
  pub new_gcp_kms : Result Text GcpKms
  pub new_aws_kms : Result Text AwsKms
  pub gcp_decrypt : GcpKms → Text → List ℕ → Result Text Text
  pub aws_decrypt : AwsKms → List ℕ → Result Text Text

-- An error of the service, or an answer without a plaintext, is an error that names the service.
abbrev pub not_empty : Text → Result Text Text → Result Text Text
not_empty service (err e) = err (service ++ codes " decrypt failed: " ++ e)
not_empty service (ok []) = err (service ++ codes " decrypt returned empty plaintext")
not_empty service (ok (c ∷ s)) = ok (c ∷ s)

module _ (cloud : Services) where
  -- `gcpkms.Client`
  pub record GcpClient : Type 0 where
    pub kms : cloud.GcpKms
    pub key_name : Text

  -- `gcpkms.NewClient`, given what the SDK makes.
  abbrev pub new_gcp_client : Text → Result Text cloud.GcpKms → Result Text GcpClient
  new_gcp_client key_name (ok kms) = ok (record { kms = kms; key_name = key_name })
  new_gcp_client key_name (err e) = err (codes "failed to create GCP KMS client: " ++ e)

  -- `kms.Client` of awskms and its `NewClient`.
  pub record AwsClient : Type 0 where
    pub kms : cloud.AwsKms

  abbrev pub new_aws_client : Result Text cloud.AwsKms → Result Text AwsClient
  new_aws_client (ok kms) = ok (record { kms = kms })
  new_aws_client (err e) = err (codes "failed to load AWS config: " ++ e)

  -- An error of the decoding is given without the position that the library adds.
  unfoldable pub gcp_age_key : GcpClient → Text → Result Text Text
  gcp_age_key c ciphertext_b64 = elim (decode_std ciphertext_b64) [
    | none ↦ err (codes "failed to decode GCP KMS ciphertext")
    | some ct ↦ not_empty (codes "GCP KMS") (cloud.gcp_decrypt c.kms c.key_name ct)
  ]

  unfoldable pub aws_age_key : AwsClient → Text → Result Text Text
  aws_age_key c ciphertext_b64 = elim (decode_std ciphertext_b64) [
    | none ↦ err (codes "failed to decode KMS ciphertext")
    | some ct ↦ not_empty (codes "AWS KMS") (cloud.aws_decrypt c.kms ct)
  ]

  -- `gcpKMSKeyProvider` and `awsKMSKeyProvider`
  pub data CloudProvider : Type 0 where
    gcp_kms : Text → GcpClient → CloudProvider
    aws_kms : Text → AwsClient → CloudProvider

  unfoldable pub cloud_master_key : CloudProvider → Result Text Text
  unfolding gcp_age_key aws_age_key
  cloud_master_key (gcp_kms ciphertext client) = gcp_age_key client ciphertext
  cloud_master_key (aws_kms ciphertext client) = aws_age_key client ciphertext

  -- A client that cannot be made leaves the choice to the next provider.
  abbrev pub with_gcp_client : Config → Result Text GcpClient → Option CloudProvider
  with_gcp_client cfg (ok client) = some (gcp_kms cfg.gcp_kms_ciphertext client)
  with_gcp_client cfg (err e) = none

  unfoldable pub gcp_provider : Config → Option CloudProvider
  gcp_provider cfg =
      if cfg.gcp_kms_ciphertext == [] || cfg.gcp_kms_key_name == []
      then none
      else with_gcp_client cfg (new_gcp_client cfg.gcp_kms_key_name cloud.new_gcp_kms)

  abbrev pub with_aws_client : Config → Result Text AwsClient → Option CloudProvider
  with_aws_client cfg (ok client) = some (aws_kms cfg.kms_ciphertext client)
  with_aws_client cfg (err e) = none

  unfoldable pub aws_provider : Config → Option CloudProvider
  aws_provider cfg =
      if cfg.kms_ciphertext == []
      then none
      else with_aws_client cfg (new_aws_client cloud.new_aws_kms)

  -- `keyProviders` of a build with both tags; the files are initialised in the order of their names.
  abbrev pub registered : Config → List (Option CloudProvider)
  registered cfg = gcp_provider cfg ∷ aws_provider cfg ∷ []
