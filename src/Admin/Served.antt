-- ===== src/Admin/Served.antt =====
-- What a request to the admin UI can bring about, and who may bring it about.
use csi_secret_age.Prelude.{
  ℕ, Text, List, ◌≡◌, refl, ap, true, arith, Option, none, some, ok, Bool-cases, inl, inr,
  >>=-eq-ok,
}
use csi_secret_age.Permissions.{UserPermissions, Policy}
use csi_secret_age.Auth.{Authenticator, UserInfoCache}
use csi_secret_age.Auth.Requests.{AuthConfig, Access, granted, unauthorized, with_auth}
use csi_secret_age.Auth.Identities.{LetIn, with_auth-LetIn}
use csi_secret_age.Vault.External.{SecretApi, Sealing}
use csi_secret_age.Web.{status}
use csi_secret_age.Admin.{
  Request, Route, Http, Answer, reply, Live, frame_denial, routed, authed, serve, trust_origins,
  new_admin_handler,
}
use csi_secret_age.Admin.Handled.{Did, answered_by_mux, handle-Did}

module _ (s : Sealing) (api : SecretApi s.Cipher) (others : ℕ → api.Cluster → api.Cluster) where
  open s use {Key, Cipher}
  open api use {Cluster}

  -- Who may reach the handlers: a request that passed the protection against cross-site requests,
  -- and that withAuth lets in with the permissions `up`.
  pub record Admitted (http : Http) (cfg : AuthConfig) (perm_mgr : Option (Authenticator × Policy))
      (csrf : http.Protection) (now later : ℕ) (req : Request) (cache : UserInfoCache)
      (up : Option UserPermissions) : Type 0 where
    pub same_site : http.check csrf req ≡ true
    pub let_in : LetIn cfg req.header now later cache perm_mgr up

  module _ (http : Http) (cfg : AuthConfig) (perm_mgr : Option (Authenticator × Policy))
      (csrf : http.Protection) (now later : ℕ) (req : Request) (l : Live s api) where
    -- How a request ends: turned away, with at most the token cache changed, or admitted, and then
    -- with what the handlers do for those permissions.
    pub data Served : Answer Cipher → Live s api → Type 0 where
      turned_away :
          (n : ℕ) (cache : UserInfoCache) → Served (reply (status n)) (record l { cache = cache })
      served :
          (up : Option UserPermissions) (cache : UserInfoCache) (answer : Answer Cipher)
          (l' : Live s api)
          → Admitted http cfg perm_mgr csrf now later req l.cache up
          → Did s api others up req (record l { cache = cache }) answer l'
          → Served answer l'

    routed-Did :
        (up : Option UserPermissions) (route : Option Route) (k : Live s api)
        → (let p = routed s api others up req route k in Did s api others up req k p.0 p.1)
    routed-Did up none k = answered_by_mux
    routed-Did up (some route) k = handle-Did s api others up req k route

    authed-Served :
        (access : Access × UserInfoCache)
        → http.check csrf req ≡ true
        → with_auth cfg perm_mgr req.header now later l.cache ≡ access
        → (let p = authed s api others req (http.mux req) l access in Served p.0 p.1)
    authed-Served (unauthorized, cache) passed h = turned_away 401 cache
    authed-Served (granted up, cache) passed h =
        served up cache _ _
          (record {
            same_site = passed;
            let_in = with_auth-LetIn cfg perm_mgr req.header now later l.cache up (ap (λ p. p.0) h);
          })
          (routed-Did up (http.mux req) (record l { cache = cache }))

    -- Every request to the admin UI is answered with the headers that forbid a frame. It is turned
    -- away with nothing but the token cache changed, or it passed the protection against cross-site
    -- requests and withAuth, and then it did nothing, or showed a page of what its permissions read,
    -- or handed out the encrypted vault to whom may export, or tried one change, by POST, with the
    -- right to make it: an unlock by whom may unlock, an update of a valid path or a deletion by
    -- whom may write the path, while the vault was unlocked.
    pub serve-Served :
        (let r = serve s api others http cfg perm_mgr csrf now later req l in
          (r.0 ≡ frame_denial) × Served r.1 r.2)
    unfolding serve
    serve-Served = elim (Bool-cases (http.check csrf req)) [
      | inl passed ↦ rw (passed, serve) (refl, authed-Served _ passed refl)
      | inr crossed ↦ rw (crossed, serve) (refl, turned_away 403 l.cache)
    ]

  module _ (http : Http) (cfg : AuthConfig) (perm_mgr : Option (Authenticator × Policy)) where
    -- A handler that is made answers every request in this way, with one protection against
    -- cross-site requests for all of them: it has the headers that forbid a frame, and the request is
    -- turned away with nothing but the token cache changed, or it passed that protection and withAuth,
    -- and then it did nothing, or showed a page of what its permissions read, or handed out the
    -- encrypted vault to whom may export, or tried one change, by POST, with the right to make it: an
    -- unlock by whom may unlock, or, while the vault was unlocked, an update of a valid path or a
    -- deletion by whom may write the path.
    pub new_admin_handler-Served :
        (origins : List Text)
        (handler : ℕ → ℕ → Request → Live s api → List (Text × Text) × Answer Cipher × Live s api)
        → new_admin_handler s api others http cfg perm_mgr origins ≡ ok handler
        → (csrf : http.Protection) × (trust_origins http origins http.new_protection ≡ ok csrf)
          × ((now later : ℕ) (req : Request) (l : Live s api)
              → ((handler now later req l).0 ≡ frame_denial)
                × Served http cfg perm_mgr csrf now later req l
                    (handler now later req l).1
                    (handler now later req l).2)
    unfolding new_admin_handler
    new_admin_handler-Served origins handler h =
        let (csrf, trusted, made) =
          >>=-eq-ok (trust_origins http origins http.new_protection) _ h in
        let same : serve s api others http cfg perm_mgr csrf ≡ handler = ground arith in
        (
          csrf,
          trusted,
          rw (← same) (λ now later req l. serve-Served http cfg perm_mgr csrf now later req l),
        )
