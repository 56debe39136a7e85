-- ===== src/Manager/Configured.antt =====
-- What a permission manager that starts has been checked for.
use csi_secret_age.Prelude.{
  Text, [], ◌≡◌, ◌≢◌, refl, ap, ◌∙◌, arith, codes, ◌==◌, ==_iff, if◌then◌else◌, Option, none, some,
  Result, ok, err, ◌>>=◌, >>=-eq-ok, Bool-cases, inl, inr,
}
use csi_secret_age.Prelude.Maps.{Map}
use csi_secret_age.Load.{Decoders, Loaded, load}
use csi_secret_age.Keys.{KeyLibrary, KeyError, JwtKeyConfig, Keyfunc, build_jwt_keyfunc}
use csi_secret_age.Keys.Sources.{MadeFrom, build_jwt_keyfunc-MadeFrom}
use csi_secret_age.Manager.{
  PermissionManager, empty_policy, lift_keys, loaded_manager, check_audience,
  new_permission_manager,
}

-- The key function comes from the one source that is set, if one is, tokens of a key set behind a URL are
-- bound to an audience, and the permissions are those of the file, which loaded without an error.
pub record IsConfigured {Node : Type 0} (lib : KeyLibrary) (yaml : Decoders Node)
    (file : Option (Option (Map Node))) (cfg : JwtKeyConfig) (pm : PermissionManager) : Type 0 where
  pub source : MadeFrom lib cfg pm.keyfunc
  pub bound : cfg.jwks_url ≢ [] → pm.audience ≢ []
  pub audience : pm.audience ≡ cfg.audience
  pub issuer : pm.issuer ≡ cfg.issuer
  pub claimed : pm.user_claim ≢ []
  pub loaded : load yaml file empty_policy ≡ (pm.policy, none)

lift_keys-ok :
    (r : Result KeyError (Option Keyfunc)) (k : Option Keyfunc) → lift_keys r ≡ ok k → r ≡ ok k
lift_keys-ok (ok a) k h = ground arith
lift_keys-ok (err e) k h = absurd (ground arith)

module _ {Node : Type 0} (lib : KeyLibrary) (yaml : Decoders Node)
    (file : Text → Option (Option (Map Node))) (cfg : JwtKeyConfig) where
  loaded_manager-IsConfigured :
      (path claim : Text) (k : Option Keyfunc) (l : Loaded) (pm : PermissionManager)
      → MadeFrom lib cfg k
      → check_audience cfg ≡ ok tt
      → load yaml (file path) empty_policy ≡ l
      → loaded_manager cfg claim k l ≡ ok pm
      → IsConfigured lib yaml (file path) cfg pm
  loaded_manager-IsConfigured path claim k (policy, some e) pm made bound same h =
      absurd (ground arith)
  loaded_manager-IsConfigured path claim k (policy, none) pm made bound same h =
      let keyfunc : k ≡ pm.keyfunc = ground arith in
      let claim_used : pm.user_claim ≡ (if claim == [] then codes "sub" else claim) =
        ground arith in
      let policy_used : policy ≡ pm.policy = ground arith in
      let same_audience : pm.audience ≡ cfg.audience = ground arith in
      record {
        source = rw keyfunc at made;
        bound = λ url.
            rw same_audience (ground (arith, ==_iff cfg.jwks_url [], ==_iff cfg.audience []));
        audience = same_audience;
        issuer = ground arith;
        claimed = rw claim_used (ground (arith, ==_iff claim []));
        loaded = same ∙ ap (λ p. (p, none)) policy_used;
      }

  -- A permission manager that is made has its key function from the one key source that is set, or
  -- none where none is set, an audience where the keys come from a URL, a user claim, and the
  -- permissions of the file, which loaded without an error.
  pub new_permission_manager-IsConfigured :
      (path claim : Text) (pm : PermissionManager)
      → new_permission_manager lib yaml file path cfg claim ≡ ok pm
      → IsConfigured lib yaml (file path) cfg pm
  unfolding new_permission_manager
  new_permission_manager-IsConfigured path claim pm h = elim (Bool-cases (path == [])) [
    | inl unset ↦ absurd (ground arith)
    | inr given ↦
        let run : (lift_keys (build_jwt_keyfunc lib cfg) >>= λ k.
        check_audience cfg >>= λ u. loaded_manager cfg claim k (load yaml (file path) empty_policy))
            ≡ ok pm =
          rw (given, new_permission_manager) at h in
        let (k, built, h1) = >>=-eq-ok (lift_keys (build_jwt_keyfunc lib cfg)) _ run in
        let (u, bound, h2) = >>=-eq-ok (check_audience cfg) _ h1 in
        loaded_manager-IsConfigured path claim k (load yaml (file path) empty_policy) pm
          (build_jwt_keyfunc-MadeFrom lib cfg k (lift_keys-ok _ k built)) bound refl h2
  ]
