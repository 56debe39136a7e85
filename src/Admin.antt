-- ===== src/Admin.antt =====
-- The admin UI as one handler: `newAdminHandler` and `withFrameDenial` of ui.go. The protection
-- against cross-site requests and the choice of a pattern by ServeMux are of net/http and are
-- parameters.
pub mod Handled
pub mod Served
use csi_secret_age.Prelude.{
  ℕ, Text, List, [], ◌∷◌, Bool, true, false, not, codes, ◌==◌, if◌then◌else◌, Option, none, some,
  Result, ok, err, ◌>>=◌,
}
use csi_secret_age.Strings.{trim_space}
use csi_secret_age.Permissions.{UserPermissions, Policy}
use csi_secret_age.Auth.{Authenticator, UserInfoCache}
use csi_secret_age.Auth.Requests.{AuthConfig, Access, granted, unauthorized, with_auth}
use csi_secret_age.Pages.{UiState, handle_index, handle_entry}
use csi_secret_age.Vault.{VaultManager}
use csi_secret_age.Vault.External.{SecretApi, Sealing}
use csi_secret_age.Web.{Reply, status, handle_update, handle_delete, handle_unlock, handle_export}

-- What the handlers read of a request; `path_query` is the value of `path` in the query.
pub record Request : Type 0 where
  pub method : Text
  pub url_path : Text
  pub path_query : Text
  pub form : Text → Text
  pub header : Text → Text

-- The patterns that are registered.
pub data Route : Type 0 where
  at_root at_entry at_unlock at_update at_delete at_export : Route

-- `http.CrossOriginProtection`, and the pattern that ServeMux picks, if it does not answer itself.
pub record Http : Type 1 where
  pub Protection : Type 0
  pub new_protection : Protection
  pub add_trusted_origin : Text → Protection → Result Text Protection
  pub check : Protection → Request → Bool
  pub mux : Request → Option Route

pub data Answer (Cipher : Type 0) : Type 0 where
  page : UiState → Answer Cipher
  reply : Reply Cipher → Answer Cipher
  by_mux : Answer Cipher

abbrev pub page_or_refusal : {Cipher : Type 0} → Option UiState → Answer Cipher
page_or_refusal none = reply (status 405)
page_or_refusal (some st) = page st

abbrev pub frame_denial : List (Text × Text)
frame_denial =
    (codes "X-Frame-Options", codes "DENY")
    ∷ (codes "Content-Security-Policy", codes "frame-ancestors 'none'")
    ∷ []

module _ (http : Http) where
  -- The loop over the trusted origins; one that is refused is the error.
  unfoldable pub trust_origins : List Text → http.Protection → Result Text http.Protection
  trust_origins [] csrf = ok csrf
  trust_origins (origin ∷ origins) csrf = elim (http.add_trusted_origin (trim_space origin) csrf) [
    | ok csrf' ↦ trust_origins origins csrf'
    | err e ↦ err origin
  ]

module _ (s : Sealing) (api : SecretApi s.Cipher) where
  open s use {Key, Cipher}
  open api use {Cluster}

  -- What a request may change: the manager, the cluster, and the cache of access tokens.
  pub record Live : Type 0 where
    pub manager : VaultManager Key
    pub cluster : Cluster
    pub cache : UserInfoCache

  module _ (others : ℕ → Cluster → Cluster) where
    abbrev pub with_cluster : Live → Reply Cipher × Cluster → Answer Cipher × Live
    with_cluster l (r, c) = (reply r, record l { cluster = c })

    abbrev pub with_manager : Live → Reply Cipher × VaultManager Key → Answer Cipher × Live
    with_manager l (r, m) = (reply r, record l { manager = m })

    -- The handler of a pattern; every path that no other pattern has goes to the root's.
    unfoldable pub handle : Option UserPermissions → Request → Route → Live → Answer Cipher × Live
    handle up req at_root l = (
      (if req.url_path == codes "/"
          then page (handle_index s api l.manager up req.path_query l.cluster)
          else reply (status 404)),
      l,
    )
    handle up req at_entry l =
        (page_or_refusal (handle_entry s api l.manager up req.method req.path_query l.cluster), l)
    handle up req at_unlock l =
        with_manager l (handle_unlock s api l.manager up req.method req.form l.cluster)
    handle up req at_update l =
        with_cluster l (handle_update s api others l.manager up req.method req.form l.cluster)
    handle up req at_delete l =
        with_cluster l (handle_delete s api others l.manager up req.method req.form l.cluster)
    handle up req at_export l = (reply (handle_export s api l.manager up l.cluster), l)

    abbrev pub routed :
        Option UserPermissions → Request → Option Route → Live → Answer Cipher × Live
    routed up req none l = (by_mux, l)
    routed up req (some route) l = handle up req route l

    abbrev pub authed :
        Request → Option Route → Live → Access × UserInfoCache → Answer Cipher × Live
    authed req route l (granted up, cache) = routed up req route (record l { cache = cache })
    authed req route l (unauthorized, cache) = (reply (status 401), record l { cache = cache })

    -- `withFrameDenial` sets its headers and passes the request on.
    abbrev pub with_frame_denial : Answer Cipher × Live → List (Text × Text) × Answer Cipher × Live
    with_frame_denial (answer, l) = (frame_denial, answer, l)

    module _ (http : Http) (cfg : AuthConfig) (perm_mgr : Option (Authenticator × Policy)) where
      -- The handler that is served, at the times `now` and `later` of the token cache.
      unfoldable pub serve :
          http.Protection → ℕ → ℕ → Request → Live → List (Text × Text) × Answer Cipher × Live
      serve csrf now later req l = with_frame_denial (
          if http.check csrf req
          then authed req (http.mux req) l (with_auth cfg perm_mgr req.header now later l.cache)
          else (reply (status 403), l))

      -- `newAdminHandler`, given the trusted origins of the configuration.
      unfoldable pub new_admin_handler :
          List Text
          → Result Text (ℕ → ℕ → Request → Live → List (Text × Text) × Answer Cipher × Live)
      unfolding trust_origins
      new_admin_handler origins = do
        csrf ← trust_origins http origins http.new_protection
        ok (serve csrf)
