-- ===== src/Vault/Crash.antt =====
-- When `UpdateVault` assigns to a nil map.
use csi_secret_age.Prelude.{
  ℕ, suc, ◌-◌, ◌<◌, ◌≡◌, ◌↔◌, refl, sym, ap, ◌∙◌, arith, Option, none, some, Result, ok, err,
}
use csi_secret_age.Prelude.Maps.{Map}
use csi_secret_age.Tree.{VaultTree}
use csi_secret_age.Vault.External.{
  ApiError, not_found, already_exists, conflict, other, Stored, SecretApi, Sealing,
}
use csi_secret_age.Vault.{
  VaultError, nil_map_write, VaultManager, loaded_key, max_retries, secret_data,
}
use csi_secret_age.Vault.Writing.{
  Attempt, return, after_create, after_update, create_with, update_with, attempt_at, attempt,
  update_loop, update_vault, Saved, modified,
}
use csi_secret_age.Vault.Errors.{modified-Raises}
use csi_secret_age.Vault.Losing.{
  at_read, at_write, Writes, modified-Writes, Writes-modified, Lost, loop_resumes,
}
use csi_secret_age.Vault.Ending.{Ended, answered, exhausted, conflicted, update_vault-Ended}

module _ (s : Sealing) (api : SecretApi s.Cipher) (others : ℕ → api.Cluster → api.Cluster) where
  open s use {Key, Cipher}
  open api use {Cluster}

  module _ {E : Type 0} (modifier : VaultTree → Result E VaultTree) (id : Key) where
    -- Attempt `n` finds a Secret with nil data, and has a ciphertext to put into it.
    pub record FindsNil (n : ℕ) (c : Cluster) : Type 0 where
      pub sec : Stored Cipher
      pub found : api.get (at_read s api others n c) ≡ ok sec
      pub bare : sec.content ≡ none
      pub cipher : Cipher
      pub writes : Writes s api others modifier id n (some sec) cipher

    -- The end of a call in that assignment.
    abbrev pub Crashed : Cluster → Attempt s api others E
    Crashed d = return (err nil_map_write) d

    modified_sound :
        (n : ℕ) (old : Option Cipher) (x : VaultError E)
        → modified s api others modifier id n old ≡ err x
        → ¬ (x ≡ nil_map_write)
    modified_sound n old x made same =
        modified-Raises nil_map_write (λ t h. cc) (λ e h. cc) s api others modifier id n old
          (rw same at made)

    created_sound :
        (p : Result ApiError (Unit {0}) × Cluster) (d : Cluster)
        → ¬ (after_create s api others {E = E} p ≡ Crashed d)
    created_sound (ok u, c) d = λ h. absurd (ground arith)
    created_sound (err not_found, c) d = λ h. absurd (ground arith)
    created_sound (err already_exists, c) d = λ h. absurd (ground arith)
    created_sound (err conflict, c) d = λ h. absurd (ground arith)
    created_sound (err (other m), c) d = λ h. absurd (ground arith)

    updated_sound :
        (n : ℕ) (p : Result ApiError (Unit {0}) × Cluster) (d : Cluster)
        → ¬ (after_update s api others {E = E} n p ≡ Crashed d)
    updated_sound n (ok u, c) d = λ h. absurd (ground arith)
    updated_sound n (err not_found, c) d = λ h. absurd (ground arith)
    updated_sound n (err already_exists, c) d = λ h. absurd (ground arith)
    updated_sound n (err (other m), c) d = λ h. absurd (ground arith)
    updated_sound n (err conflict, c) d = λ h. absurd (ground arith)

    create_sound :
        (n : ℕ) (r : Result (VaultError E) Cipher) (c d : Cluster)
        → modified s api others modifier id n none ≡ r
        → ¬ (create_with s api others modifier id r c ≡ Crashed d)
    unfolding create_with
    create_sound n (err x) c d made h = modified_sound n none x made (ground arith)
    create_sound n (ok ct) c d made h = created_sound _ d h

    module _ (n : ℕ) (c : Cluster) where
      update_sound :
          (sec : Stored Cipher) (r : Result (VaultError E) Cipher) (content : Option (Map Cipher))
          (d : Cluster)
          → api.get (at_read s api others n c) ≡ ok sec
          → modified s api others modifier id n (secret_data sec.content) ≡ r
          → sec.content ≡ content
          → update_with s api others modifier id n r sec content (at_write s api others n c)
            ≡ Crashed d
          → FindsNil n c × (d ≡ at_write s api others n c)
      unfolding update_with
      update_sound sec (err x) content d got made filled h =
          absurd (modified_sound n _ x made (ground arith))
      update_sound sec (ok ct) none d got made filled h = (
        record {
          sec = sec;
          found = got;
          bare = filled;
          cipher = ct;
          writes = Writes-modified s api others modifier id n (some sec) ct made;
        },
        ground arith,
      )
      update_sound sec (ok ct) (some m) d got made filled h = absurd (updated_sound n _ d h)

      attempt_at_sound :
          (r : Result ApiError (Stored Cipher)) (d : Cluster)
          → api.get (at_read s api others n c) ≡ r
          → attempt_at s api others modifier id n r (at_read s api others n c) ≡ Crashed d
          → FindsNil n c × (d ≡ at_write s api others n c)
      unfolding attempt_at
      attempt_at_sound (ok sec) d got h = update_sound sec _ sec.content d got refl refl h
      attempt_at_sound (err not_found) d got h = absurd (create_sound n _ _ d refl h)
      attempt_at_sound (err already_exists) d got h = absurd (ground arith)
      attempt_at_sound (err conflict) d got h = absurd (ground arith)
      attempt_at_sound (err (other m)) d got h = absurd (ground arith)

      attempt_sound :
          (d : Cluster)
          → attempt s api others modifier id n c ≡ Crashed d
          → FindsNil n c × (d ≡ at_write s api others n c)
      unfolding attempt
      attempt_sound d h = attempt_at_sound _ d refl h

      attempt_complete :
          FindsNil n c → attempt s api others modifier id n c ≡ Crashed (at_write s api others n c)
      unfolding attempt attempt_at update_with
      attempt_complete f = rw f.found (
          rw (modified-Writes s api others modifier id n (some f.sec) f.cipher f.writes)
            (rw f.bare refl))

    -- Some attempt, before which all lost, finds nil data, and writes nothing.
    pub record Crashes (c d : Cluster) : Type 0 where
      pub index : ℕ
      pub few : index < 5
      pub start : Cluster
      pub lost : Lost s api others modifier id c index start
      pub finds : FindsNil index start
      pub final : d ≡ at_write s api others index start

    Ended-sound :
        (c d : Cluster) (p : Saved s api others E)
        → Ended s api others modifier id c p
        → p ≡ (err nil_map_write, d)
        → Crashes c d
    Ended-sound c d p (answered {k = k} {d = b} {e = e} {r = r} few lost won ran stays) h =
        let raised : r ≡ err nil_map_write = ap (λ (q : Saved s api others E). q.0) h in
        let left : e ≡ d = ap (λ (q : Saved s api others E). q.1) h in
        let (finds, final) = attempt_sound k b d (rw left at (rw raised at ran)) in
        record { index = k; few = few; start = b; lost = lost; finds = finds; final = final }
    Ended-sound c d p (exhausted lost round) h =
        absurd (let r = ap (λ (q : Saved s api others E). q.0) h in ground arith)
    Ended-sound c d p (conflicted lost round) h =
        absurd (let r = ap (λ (q : Saved s api others E). q.0) h in ground arith)

    loop_complete :
        (left n : ℕ) (c : Cluster)
        → FindsNil n c
        → update_loop s api others modifier id (suc left) n c
          ≡ (err nil_map_write, at_write s api others n c)
    unfolding update_loop
    loop_complete left n c f = rw (attempt_complete n c f, update_loop) refl

    -- A call with a loaded key ends in the assignment to a nil map exactly when one of its five
    -- attempts finds a Secret with nil data, all attempts before it having lost, and the modifier
    -- and the encryption succeed on the empty tree. It leaves the cluster as others had made it by
    -- the time that attempt would have written.
    pub update_vault-nil_map :
        (m : VaultManager Key) (c d : Cluster)
        → loaded_key s m ≡ some id
        → (update_vault s api others m modifier c ≡ (err nil_map_write, d)) ↔ Crashes c d
    unfolding update_vault
    update_vault-nil_map m c d key = (
      λ h. Ended-sound c d _ (update_vault-Ended s api others modifier id m c key) h,
      λ crash.
          let resumed : update_loop s api others modifier id max_retries 0 c
              ≡ update_loop s api others modifier id (suc (4 - crash.index)) crash.index
                  crash.start =
            loop_resumes s api others modifier id (suc (4 - crash.index)) max_retries crash.lost
              crash.few (let few = crash.few in omega arith) in
          rw (key, update_vault)
            (resumed
              ∙ loop_complete (4 - crash.index) crash.index crash.start crash.finds
              ∙ ap (λ (x : Cluster). (err nil_map_write, x)) (sym crash.final)),
    )
