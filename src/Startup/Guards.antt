-- ===== src/Startup/Guards.antt =====
-- What a server that starts has been checked for, and whom it serves.
use csi_secret_age.Prelude.{
  Text, [], ◌≡◌, ◌≢◌, refl, false, arith, ◌==◌, ==_iff, Option, none, some, Result, ok, err,
  >>=-eq-ok, Bool-cases, inl, inr,
}
use csi_secret_age.Config.{resolve_secrets, resolve_key_provider, get_master_key}
use csi_secret_age.Vault.{new_vault_manager}
use csi_secret_age.Vault.External.{SecretApi, Sealing}
use csi_secret_age.Vault.Locking.{IsSound, new_vault_manager-IsSound}
use csi_secret_age.Manager.{
  UserInfo, PermissionManager, ManagerError, enable_user_info, new_permission_manager,
}
use csi_secret_age.Config.Settings.{Config, jwt_keys, resolvers}
use csi_secret_age.Startup.{
  Outside, Server, check_guards, start_permissions, started_manager, with_user_info,
  with_discovered, start, lift_environment, resolved_config, slog_level, check_client, dev_key,
}
use csi_secret_age.Manager.Configured.{IsConfigured, new_permission_manager-IsConfigured}

module _ (o : Outside) where
  -- A server that may run.
  pub record IsGuarded (cfg : Config) (perm_mgr : Option PermissionManager) : Type 0 where
    pub closed : cfg.dev_mode ≡ false → (pm : PermissionManager) × (perm_mgr ≡ some pm)
    pub admin_value : cfg.jwt_admin_header ≢ [] → cfg.jwt_admin_value ≢ []
    pub configured :
        (pm : PermissionManager)
        → perm_mgr ≡ some pm
        → IsConfigured o.keys o.yaml (o.permissions_file cfg.perm_config_path) (jwt_keys cfg) pm

  module _ (cfg : Config) where
    discovered-IsConfigured :
        (pm : PermissionManager) (r : Result Text UserInfo)
        → IsConfigured o.keys o.yaml (o.permissions_file cfg.perm_config_path) (jwt_keys cfg) pm
        → IsConfigured o.keys o.yaml
            (o.permissions_file cfg.perm_config_path)
            (jwt_keys cfg)
            (with_discovered o cfg pm r)
    unfolding enable_user_info
    discovered-IsConfigured pm (err e) h = h
    discovered-IsConfigured pm (ok provider) h = record {
      source = h.source;
      bound = h.bound;
      audience = h.audience;
      issuer = h.issuer;
      claimed = h.claimed;
      loaded = h.loaded;
    }

    with_user_info-IsConfigured :
        (pm : PermissionManager)
        → IsConfigured o.keys o.yaml (o.permissions_file cfg.perm_config_path) (jwt_keys cfg) pm
        → IsConfigured o.keys o.yaml
            (o.permissions_file cfg.perm_config_path)
            (jwt_keys cfg)
            (with_user_info o cfg pm)
    with_user_info-IsConfigured pm h = elim (Bool-cases (cfg.jwt_issuer == [])) [
      | inl unset ↦ rw unset h
      | inr set ↦ rw set (discovered-IsConfigured pm (o.discover cfg.jwt_issuer) h)
    ]

    started_manager-IsConfigured :
        (r : Result ManagerError PermissionManager) (perm_mgr : Option PermissionManager)
        → new_permission_manager o.keys o.yaml o.permissions_file cfg.perm_config_path
            (jwt_keys cfg)
            cfg.jwt_user_claim
          ≡ r
        → started_manager o cfg r ≡ ok perm_mgr
        → (pm : PermissionManager) × (perm_mgr ≡ some pm)
          × IsConfigured o.keys o.yaml (o.permissions_file cfg.perm_config_path) (jwt_keys cfg) pm
    started_manager-IsConfigured (err e) perm_mgr made h = absurd (ground arith)
    started_manager-IsConfigured (ok pm) perm_mgr made h = (
      with_user_info o cfg pm,
      ground arith,
      with_user_info-IsConfigured pm (
          new_permission_manager-IsConfigured o.keys o.yaml o.permissions_file (jwt_keys cfg)
            cfg.perm_config_path cfg.jwt_user_claim pm made),
    )

    start_permissions-IsGuarded :
        (perm_mgr : Option PermissionManager)
        → check_guards cfg ≡ ok tt
        → start_permissions o cfg ≡ ok perm_mgr
        → IsGuarded cfg perm_mgr
    unfolding check_guards start_permissions
    start_permissions-IsGuarded perm_mgr guards h = elim (Bool-cases (cfg.perm_config_path == [])) [
      | inl unset ↦
          let nobody : perm_mgr ≡ none = ground arith in
          record {
            closed = λ production. absurd (ground arith);
            admin_value = λ named.
                ground (arith, ==_iff cfg.jwt_admin_header [], ==_iff cfg.jwt_admin_value []);
            configured = λ pm e. absurd (ground arith);
          }
      | inr set ↦
          let run : started_manager o cfg (
                new_permission_manager o.keys o.yaml o.permissions_file cfg.perm_config_path
                  (jwt_keys cfg) cfg.jwt_user_claim)
              ≡ ok perm_mgr =
            rw (set, start_permissions) at h in
          let (pm, there, configured) = started_manager-IsConfigured _ perm_mgr refl run in
          record {
            closed = λ production. (pm, there);
            admin_value = λ named.
                ground (arith, ==_iff cfg.jwt_admin_header [], ==_iff cfg.jwt_admin_value []);
            configured = λ pm' e. let same : pm ≡ pm' = ground arith in rw same at configured;
          }
    ]

  module _ (s : Sealing) (api : SecretApi s.Cipher) where
    -- The server has passed the guards, and its vault is sound.
    pub record Started (server : Server s.Key) : Type 0 where
      pub guarded : IsGuarded server.config server.perm_mgr
      pub sound : IsSound s api (record { manager = server.manager; waiting = [] })

    -- A server that starts has a permission manager unless it is in development, and an admin value
    -- wherever it has an admin header. A permission manager that it has was made with the one key
    -- source that is set, or with none where none is set, has an audience where the keys come from a
    -- URL, and has its permissions from a file that loaded. The vault is unlocked only by a key that
    -- was checked.
    pub start-Started :
        (environment : Result Text Config) (c : api.Cluster) (server : Server s.Key)
        → start o s api environment c ≡ ok server
        → Started server
    unfolding start
    start-Started environment c server h =
        let (parsed, h0, h1) = >>=-eq-ok (lift_environment o environment) _ h in
        let (resolved, h2, h3) =
          >>=-eq-ok (resolved_config parsed (resolve_secrets o.read_file (resolvers parsed))) _
            h1 in
        let (level, h4, h5) = >>=-eq-ok (slog_level (o.to_upper resolved.log_level)) _ h3 in
        let (client, h6, h7) = >>=-eq-ok (check_client resolved.dev_mode o.client) _ h5 in
        let (cfg, h8, h9) = >>=-eq-ok (dev_key resolved o.generate_key) _ h7 in
        let (u, guards, h10) = >>=-eq-ok (check_guards cfg) _ h9 in
        let (perm_mgr, started, last) = >>=-eq-ok (start_permissions o cfg) _ h10 in
        let same : record {
          config = cfg;
          manager =
              new_vault_manager s api
                (some (
                  get_master_key o.call
                    (resolve_key_provider (o.key_providers cfg) cfg.master_key)))
                c;
          perm_mgr = perm_mgr;
        }
            ≡ server =
          ground arith in
        rw (← same) (record {
          guarded = start_permissions-IsGuarded cfg perm_mgr guards started;
          sound = new_vault_manager-IsSound s api _ c;
        })
