-- ===== src/Config/Settings.antt =====
-- `Config` of config.go: the settings, the table of ResolveSecrets over its fields, and what `main`
-- of main.go and `newAdminHandler` of ui.go pass on of them.
use csi_secret_age.Prelude.{ℤ, Text, List, [], ◌∷◌, Bool, codes}
use csi_secret_age.Auth.{Duration}
use csi_secret_age.Auth.Requests.{AuthConfig}
use csi_secret_age.Keys.{JwtKeyConfig}
use csi_secret_age.Config.{Resolver}

pub record Config : Type 0 where
  pub master_key : Text
  pub master_key_file : Text
  pub vault_secret_name : Text
  pub vault_namespace : Text
  pub socket_path : Text
  pub http_port : ℤ
  pub dev_mode : Bool
  pub log_level : Text
  pub perm_config_path : Text
  pub jwt_public_key : Text
  pub jwt_public_key_file : Text
  pub jwt_user_claim : Text
  pub jwt_audience : Text
  pub jwt_issuer : Text
  pub jwt_user_header : Text
  pub jwt_admin_header : Text
  pub jwt_admin_value : Text
  pub jwt_jwks_url : Text
  pub jwt_jwks : Text
  pub jwt_jwks_file : Text
  pub jwt_jwks_refresh_interval : ℤ
  pub oauth_user_info_cache_ttl : Duration
  pub csrf_trusted_origins : List Text
  pub kms_ciphertext : Text
  pub kms_ciphertext_file : Text
  pub gcp_kms_key_name : Text
  pub gcp_kms_key_name_file : Text
  pub gcp_kms_ciphertext : Text
  pub gcp_kms_ciphertext_file : Text

abbrev pub resolver : Text → Text → Text → Resolver
resolver name inline file_path = record { name = name; inline = inline; file_path = file_path }

abbrev pub resolvers : Config → List Resolver
resolvers cfg =
    resolver (codes "MASTER_KEY") cfg.master_key cfg.master_key_file
    ∷ resolver (codes "JWT_PUBLIC_KEY") cfg.jwt_public_key cfg.jwt_public_key_file
    ∷ resolver (codes "JWT_JWKS") cfg.jwt_jwks cfg.jwt_jwks_file
    ∷ resolver (codes "KMS_CIPHERTEXT") cfg.kms_ciphertext cfg.kms_ciphertext_file
    ∷ resolver (codes "GCP_KMS_KEY_NAME") cfg.gcp_kms_key_name cfg.gcp_kms_key_name_file
    ∷ resolver (codes "GCP_KMS_CIPHERTEXT") cfg.gcp_kms_ciphertext cfg.gcp_kms_ciphertext_file
    ∷ []

-- The fields that the pointers of the table name.
abbrev pub with_resolved : Config → List Resolver → Config
with_resolved cfg (a ∷ b ∷ c ∷ d ∷ e ∷ f ∷ []) = record cfg {
  master_key = a.inline;
  jwt_public_key = b.inline;
  jwt_jwks = c.inline;
  kms_ciphertext = d.inline;
  gcp_kms_key_name = e.inline;
  gcp_kms_ciphertext = f.inline;
}
with_resolved cfg rs = cfg

abbrev pub jwt_keys : Config → JwtKeyConfig
jwt_keys cfg = record {
  public_key_pem = cfg.jwt_public_key;
  jwks_url = cfg.jwt_jwks_url;
  jwks_json = cfg.jwt_jwks;
  refresh_interval = cfg.jwt_jwks_refresh_interval;
  audience = cfg.jwt_audience;
  issuer = cfg.jwt_issuer;
}

-- The arguments of `withAuth`.
abbrev pub auth_config : Config → AuthConfig
auth_config cfg = record {
  user_header = cfg.jwt_user_header;
  admin_header = cfg.jwt_admin_header;
  admin_value = cfg.jwt_admin_value;
  allow_unauthenticated = cfg.dev_mode;
}
