-- ===== src/Csi/Serving.antt =====
-- What a mount that succeeds has handed out.
use csi_secret_age.Prelude.{
  Text, List, [], ◌∷◌, ◌≡◌, ◌≢◌, sym, ap, ◌∙◌, false, arith, Result, ok, err, codes, inl, inr,
  Bool-cases, >>=-eq-ok, ==_iff,
}
use csi_secret_age.Prelude.Maps.{Map}
use csi_secret_age.Strings.{split}
use csi_secret_age.Strings.Splits.{Lacks}
use csi_secret_age.Paths.{slash}
use csi_secret_age.Tree.{VaultTree}
use csi_secret_age.Vault.{VaultError, VaultManager, load_and_decrypt}
use csi_secret_age.Vault.External.{SecretApi, Sealing}
use csi_secret_age.Csi.{
  ProviderServer, File, MountResponse, server_can_access, attribute, forbidden, pod_identity,
  mount_loop, mount, mount_unlocked, versions, check_identity, lift_attributes, lift_load,
}
use csi_secret_age.Csi.Answers.{ServesAll, mount_loop-ServesAll}

-- The identity of a pod as the policy may be asked about it.
pub record IsPod (ns sa : Text) : Type 0 where
  pub ns_given : ns ≢ []
  pub sa_given : sa ≢ []
  pub ns_plain : Lacks slash ns
  pub sa_plain : Lacks slash sa

forbidden-Lacks : (s : Text) → forbidden s ≡ false → Lacks slash s
unfolding forbidden
forbidden-Lacks [] h = tt
forbidden-Lacks (c ∷ s) h = ground (arith, forbidden-Lacks s)

check_identity-IsPod :
    (ns sa ns' sa' : Text)
    → check_identity ns sa ≡ ok (ns', sa')
    → IsPod ns sa × (ns ≡ ns') × (sa ≡ sa')
unfolding check_identity
check_identity-IsPod ns sa ns' sa' h =
    let good_ns : forbidden ns ≡ false = ground arith in
    let good_sa : forbidden sa ≡ false = ground arith in
    (
      record {
        ns_given = ground (arith, ==_iff ns []);
        sa_given = ground (arith, ==_iff sa []);
        ns_plain = forbidden-Lacks ns good_ns;
        sa_plain = forbidden-Lacks sa good_sa;
      },
      ground arith,
      ground arith,
    )

pod_identity-IsPod :
    (attrs : Map Text) (ns sa : Text) → pod_identity attrs ≡ ok (ns, sa) → IsPod ns sa
unfolding pod_identity
pod_identity-IsPod attrs ns sa h =
    let (pod, same_ns, same_sa) = check_identity-IsPod _ _ ns sa h in
    rw (← same_ns) (rw (← same_sa) pod)

lift_attributes-eq-ok :
    (r : Result Text (Map Text)) {a : Map Text} → lift_attributes r ≡ ok a → r ≡ ok a
lift_attributes-eq-ok (ok b) h = ground arith
lift_attributes-eq-ok (err e) h = cc

lift_load-eq-ok :
    (r : Result (VaultError (Unit {0})) VaultTree) {t : VaultTree} → lift_load r ≡ ok t → r ≡ ok t
lift_load-eq-ok (ok b) h = ground arith
lift_load-eq-ok (err e) h = cc

-- What a successful mount rests on.
pub record Mounted (s : Sealing) (api : SecretApi s.Cipher) (server : ProviderServer)
    (m : VaultManager s.Key) (c : api.Cluster) (attributes : Result Text (Map Text))
    (response : MountResponse) : Type 0 where
  pub attrs : Map Text
  pub given : attributes ≡ ok attrs
  pub namespace : Text
  pub account : Text
  pub identified : pod_identity attrs ≡ ok (namespace, account)
  pub pod : IsPod namespace account
  pub tree : VaultTree
  pub loaded : load_and_decrypt s api {E = Unit {0}} m c ≡ ok tree
  pub files :
      ServesAll
        (server_can_access server namespace account)
        tree
        (split b',' (attribute (codes "secrets") attrs))
        response.files
  pub labelled : response.object_version ≡ versions response.files

module _ (s : Sealing) (api : SecretApi s.Cipher) (server : ProviderServer) (m : VaultManager s.Key)
    (c : api.Cluster) (attributes : Result Text (Map Text)) (response : MountResponse) where
  Mounted-of :
      (attrs : Map Text) (pod : Text × Text) (tree : VaultTree) (files : List File)
      → attributes ≡ ok attrs
      → pod_identity attrs ≡ ok pod
      → load_and_decrypt s api {E = Unit {0}} m c ≡ ok tree
      → ServesAll
          (server_can_access server pod.0 pod.1)
          tree
          (split b',' (attribute (codes "secrets") attrs))
          files
      → response.files ≡ files
      → response.object_version ≡ versions files
      → Mounted s api server m c attributes response
  Mounted-of attrs pod tree files given identified loaded answers same labels = record {
    attrs = attrs;
    given = given;
    namespace = pod.0;
    account = pod.1;
    identified = identified;
    pod = pod_identity-IsPod attrs pod.0 pod.1 identified;
    tree = tree;
    loaded = loaded;
    files = rw same answers;
    labelled = labels ∙ ap versions (sym same);
  }

  mount_unlocked-Mounted :
      mount_unlocked s api server m c attributes ≡ ok response
      → Mounted s api server m c attributes response
  unfolding mount_unlocked
  mount_unlocked-Mounted h =
      let (attrs, given, h1) = >>=-eq-ok (lift_attributes attributes) _ h in
      let (pod, identified, h2) = >>=-eq-ok (pod_identity attrs) _ h1 in
      let (tree, loaded, h3) = >>=-eq-ok (lift_load (load_and_decrypt s api m c)) _ h2 in
      let (files, looped, h4) =
        >>=-eq-ok
          (mount_loop (server_can_access server pod.0 pod.1) tree
            (split b',' (attribute (codes "secrets") attrs)))
          _ h3 in
      Mounted-of attrs pod tree files (lift_attributes-eq-ok attributes given) identified
        (lift_load-eq-ok (load_and_decrypt s api m c) loaded)
        (mount_loop-ServesAll (server_can_access server pod.0 pod.1) tree _ files looped)
        (ground arith) (ground arith)

  -- A mount that succeeds was asked by a pod with a namespace and a service account that hold no
  -- slash, and answers the comma-separated requests in their order, each with the value that the
  -- decrypted vault holds at the requested path, under a file name that stays in the directory of
  -- the mount, and only where that pod may read the path.
  pub mount-Mounted :
      mount s api server m c attributes ≡ ok response → Mounted s api server m c attributes response
  unfolding mount
  mount-Mounted h = elim (Bool-cases m.is_locked) [
    | inl shut ↦ absurd (ground arith)
    | inr unlocked ↦ mount_unlocked-Mounted (ground arith)
  ]
