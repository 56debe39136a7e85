-- ===== src/Startup/Closed.antt =====
-- Whom a server outside of development serves.
use csi_secret_age.Prelude.{ℕ, Text, ◌≡◌, refl, ap, true, false, Option, some, Result, ok}
use csi_secret_age.Permissions.{UserPermissions, Policy, can_access}
use csi_secret_age.Auth.{UserInfoCache}
use csi_secret_age.Auth.Identities.{LetIn, Identified, identified}
use csi_secret_age.Csi.{server_can_access}
use csi_secret_age.Vault.External.{SecretApi, Sealing}
use csi_secret_age.Web.{status}
use csi_secret_age.Admin.{Request, Http, Answer, reply, Live, frame_denial, trust_origins}
use csi_secret_age.Admin.Handled.{Did}
use csi_secret_age.Admin.Served.{Served, new_admin_handler-Served}
use csi_secret_age.Manager.{PermissionManager}
use csi_secret_age.Config.Settings.{Config, auth_config}
use csi_secret_age.Startup.{Outside, Server, start, authenticator, auth_manager, provider_server}
use csi_secret_age.Startup.Guards.{start-Started}
use csi_secret_age.Startup.Handling.{with_policy, Handler, admin_handler}

module _ (o : Outside) (cfg : Config) (perm_mgr : Option PermissionManager) (header : Text → Text)
    (now later : ℕ) (cache : UserInfoCache) where
  -- The request comes from somebody who is identified.
  pub record Known (found : Option UserPermissions) : Type 0 where
    pub pm : PermissionManager
    pub there : perm_mgr ≡ some pm
    pub up : UserPermissions
    pub carried : found ≡ some up
    pub who : Identified (auth_config cfg) (authenticator o pm) pm.policy header now later cache up

  known :
      (pm : PermissionManager) (found : Option UserPermissions)
      → perm_mgr ≡ some pm
      → LetIn (auth_config cfg) header now later cache (some (authenticator o pm, pm.policy)) found
      → Known found
  known pm found there (identified a pol up who) = record {
    pm = pm;
    there = there;
    up = up;
    carried = refl;
    who = who;
  }

module _ (o : Outside) (s : Sealing) (api : SecretApi s.Cipher)
    (others : ℕ → api.Cluster → api.Cluster) (http : Http) where
  module _ (cfg : Config) (perm_mgr : Option PermissionManager) (csrf : http.Protection)
      (now later : ℕ) (req : Request) (l : Live s api) where
    -- A request is turned away, with at most the token cache changed, or it is from the same site
    -- and comes from somebody who is known, and then the handlers did it for those permissions.
    pub data KnownServed : Answer s.Cipher → Live s api → Type 0 where
      turned_away :
          (n : ℕ) (cache : UserInfoCache)
          → KnownServed (reply (status n)) (record l { cache = cache })
      served :
          (up : Option UserPermissions) (cache : UserInfoCache) (answer : Answer s.Cipher)
          (l' : Live s api)
          → http.check csrf req ≡ true
          → Known o cfg perm_mgr req.header now later l.cache up
          → Did s api others up req (record l { cache = cache }) answer l'
          → KnownServed answer l'

    Served-KnownServed :
        (pm : PermissionManager) {answer : Answer s.Cipher} {l' : Live s api}
        → perm_mgr ≡ some pm
        → Served s api others http
            (auth_config cfg)
            (auth_manager o (some pm))
            csrf
            now
            later
            req
            l
            answer
            l'
        → KnownServed answer l'
    Served-KnownServed pm there (Served.turned_away n cache) = turned_away n cache
    Served-KnownServed pm there (Served.served up cache answer l' admitted did) =
        served up cache answer l' admitted.same_site
          (known o cfg perm_mgr req.header now later l.cache pm up there admitted.let_in) did

  -- Outside of development, whatever permissions the watcher has loaded since the start, the admin
  -- UI of a server that started answers every request with the headers that forbid a frame. The
  -- request is turned away with at most the token cache changed, or it passed the protection
  -- against cross-site requests, made with the trusted origins of the configuration, and carries
  -- the permissions of a user who came by a JWT, an access token or the configured header, and the
  -- handlers did with these what they may do. Every mount is decided by the same permissions.
  pub start-admin_handler :
      (environment : Result Text Config) (c : api.Cluster) (server : Server s.Key) (pol : Policy)
      (handler : Handler o s api others http)
      → start o s api environment c ≡ ok server
      → server.config.dev_mode ≡ false
      → admin_handler o s api others http server pol ≡ ok handler
      → ((namespace sa path : Text)
          → server_can_access
              (provider_server server.config (with_policy pol server.perm_mgr))
              namespace
              sa
              path
            ≡ can_access pol namespace sa path)
        × ((csrf : http.Protection) × (trust_origins http server.config.csrf_trusted_origins
                http.new_protection
              ≡ ok csrf)
            × ((now later : ℕ) (req : Request) (l : Live s api)
                → (let r = handler now later req l in
                    (r.0 ≡ frame_denial)
                    × KnownServed server.config
                        (with_policy pol server.perm_mgr)
                        csrf
                        now
                        later
                        req
                        l
                        r.1
                        r.2)))
  unfolding admin_handler server_can_access
  start-admin_handler environment c server pol handler started production made =
      let (pm, there) =
        (start-Started o s api environment c server started).guarded.closed production in
      let (csrf, trusted, all) =
        new_admin_handler-Served s api others http (auth_config server.config)
          (auth_manager o (with_policy pol server.perm_mgr)) server.config.csrf_trusted_origins
          handler made in
      let now_there : with_policy pol server.perm_mgr ≡ some (record pm { policy = pol }) =
        ap (with_policy pol) there in
      let known_served = λ (now later : ℕ) (req : Request) (l : Live s api).
        Served-KnownServed server.config (with_policy pol server.perm_mgr) csrf now later req l
          (record pm { policy = pol }) now_there (rw now_there at (all now later req l).1) in
      (
        λ namespace sa path. rw now_there refl,
        (csrf, trusted, λ now later req l. ((all now later req l).0, known_served now later req l)),
      )
