-- ===== src/Startup/Handling.antt =====
-- The handler that `startHTTPServer` of ui.go serves, for the server that `main` has put together.
use csi_secret_age.Prelude.{ℕ, Text, List, Option, none, some, Result}
use csi_secret_age.Permissions.{Policy}
use csi_secret_age.Manager.{PermissionManager}
use csi_secret_age.Vault.External.{SecretApi, Sealing}
use csi_secret_age.Admin.{Request, Http, Answer, Live, new_admin_handler}
use csi_secret_age.Config.Settings.{auth_config}
use csi_secret_age.Startup.{Outside, Server, auth_manager}

-- The manager once the watcher has loaded other permissions.
abbrev pub with_policy : Policy → Option PermissionManager → Option PermissionManager
with_policy pol none = none
with_policy pol (some pm) = some (record pm { policy = pol })

module _ (o : Outside) (s : Sealing) (api : SecretApi s.Cipher)
    (others : ℕ → api.Cluster → api.Cluster) (http : Http) where
  abbrev pub Handler : Type 0
  Handler = ℕ → ℕ → Request → Live s api → List (Text × Text) × Answer s.Cipher × Live s api

  -- The handler while the permissions in force are `pol`.
  unfoldable pub admin_handler : Server s.Key → Policy → Result Text Handler
  admin_handler server pol =
      new_admin_handler s api others http (auth_config server.config)
        (auth_manager o (with_policy pol server.perm_mgr)) server.config.csrf_trusted_origins
