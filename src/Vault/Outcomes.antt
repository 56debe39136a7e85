-- ===== src/Vault/Outcomes.antt =====
-- How an attempt of `UpdateVault` ends.
use csi_secret_age.Prelude.{
  ℕ, ◌-◌, ◌<◌, ◌≡◌, ◌≢◌, refl, sym, ap, ◌∙◌, arith, Option, none, some, Result, ok, err, ltb,
  Bool-cases, inl, inr,
}
use csi_secret_age.Prelude.Maps.{Map, insert}
use csi_secret_age.Tree.{VaultTree}
use csi_secret_age.Vault.External.{
  ApiError, not_found, already_exists, conflict, other, Stored, SecretApi, Sealing,
}
use csi_secret_age.Vault.{VaultError, gave_up, api_failed, max_retries, data_key, secret_data}
use csi_secret_age.Vault.Writing.{
  Attempt, return, again, after_create, after_update, create_with, update_with, attempt_at, attempt,
  sealed, modified,
}
use csi_secret_age.Vault.Errors.{modified-Raises}
use csi_secret_age.Vault.Losing.{
  at_read, at_write, modified-Writes, Writes-modified, LostCreate, LostUpdate, LostRound,
}

-- The error that the loop ran out of attempts.
abbrev pub GaveUp : {E A : Type 0} → Result (VaultError E) A → Type 0
GaveUp r = r ≡ err gave_up

module _ (s : Sealing) (api : SecretApi s.Cipher) (others : ℕ → api.Cluster → api.Cluster) where
  open s use {Key, Cipher}
  open api use {Cluster}

  module _ {E : Type 0} (modifier : VaultTree → Result E VaultTree) (id : Key) where
    modified-GaveUp :
        (n : ℕ) (old : Option Cipher) → ¬ GaveUp (modified s api others modifier id n old)
    modified-GaveUp = modified-Raises gave_up (λ t h. cc) (λ e h. cc) s api others modifier id

    -- How attempt `n` ends: it lost and is tried again, or it was the last one and lost its Update,
    -- or it did not lose and answers, never with the error of the loop.
    pub data Outcome (n : ℕ) (c : Cluster) : Attempt s api others E → Type 0 where
      lost_create :
          {d : Cluster} → LostCreate s api others modifier id n c d → Outcome n c (again d)
      lost_update :
          {d : Cluster} → n < 4 → LostUpdate s api others modifier id n c d → Outcome n c (again d)
      last_update :
          {d : Cluster}
          → ¬ (n < 4)
          → LostUpdate s api others modifier id n c d
          → Outcome n c (return (err (api_failed conflict)) d)
      answers :
          {r : Result (VaultError E) (Unit {0})} {d : Cluster}
          → ((e : Cluster) → ¬ LostRound s api others modifier id n c e)
          → ¬ GaveUp r
          → Outcome n c (return r d)

    module _ (n : ℕ) (c : Cluster) where
      -- Without the Secret, an attempt loses only when its Create is told that there is one.
      create_unlost :
          (r : Result (VaultError E) Cipher)
          → api.get (at_read s api others n c) ≡ err not_found
          → modified s api others modifier id n none ≡ r
          → ((ct : Cipher) (d : Cluster)
              → r ≡ ok ct
              → ¬ (
                  api.create (sealed s api others ct) (at_write s api others n c)
                  ≡ (err already_exists, d)))
          → (e : Cluster) → ¬ LostRound s api others modifier id n c e
      create_unlost r got made h e (inl l) =
          h l.cipher e
            (sym made ∙ modified-Writes s api others modifier id n none l.cipher l.writes) l.taken
      create_unlost r got made h e (inr l) = let clash = sym got ∙ l.found in absurd (ground arith)

      answered_create :
          (ct : Cipher) (x : Result ApiError (Unit {0})) (d : Cluster)
          → api.get (at_read s api others n c) ≡ err not_found
          → modified s api others modifier id n none ≡ ok ct
          → api.create (sealed s api others ct) (at_write s api others n c) ≡ (x, d)
          → x ≢ err already_exists
          → (e : Cluster) → ¬ LostRound s api others modifier id n c e
      answered_create ct x d got made ran ne = create_unlost (ok ct) got made (λ ct' d' same taken.
          let key : ct' ≡ ct = ground arith in
          let both : ◌≡◌ {A = Result ApiError (Unit {0}) × Cluster} (x, d)
              (err already_exists, d') =
            sym ran ∙ (rw key at taken) in
          ne (ap (λ (p : Result ApiError (Unit {0}) × Cluster). p.0) both))

      created_outcome :
          (ct : Cipher) (p : Result ApiError (Unit {0}) × Cluster)
          → api.get (at_read s api others n c) ≡ err not_found
          → modified s api others modifier id n none ≡ ok ct
          → api.create (sealed s api others ct) (at_write s api others n c) ≡ p
          → Outcome n c (after_create s api others p)
      created_outcome ct (err already_exists, d) got made ran = lost_create (record {
        missing = got;
        cipher = ct;
        writes = Writes-modified s api others modifier id n none ct made;
        taken = ran;
      })
      created_outcome ct (ok u, d) got made ran =
          answers (answered_create ct _ d got made ran (λ h. cc)) (λ h. cc)
      created_outcome ct (err not_found, d) got made ran =
          answers (answered_create ct _ d got made ran (λ h. cc)) (λ h. cc)
      created_outcome ct (err conflict, d) got made ran =
          answers (answered_create ct _ d got made ran (λ h. cc)) (λ h. cc)
      created_outcome ct (err (other m), d) got made ran =
          answers (answered_create ct _ d got made ran (λ h. cc)) (λ h. cc)

      create_outcome :
          (r : Result (VaultError E) Cipher)
          → api.get (at_read s api others n c) ≡ err not_found
          → modified s api others modifier id n none ≡ r
          → Outcome n c (create_with s api others modifier id r (at_write s api others n c))
      unfolding create_with
      create_outcome (ok ct) got made = created_outcome ct _ got made refl
      create_outcome (err x) got made =
          answers (create_unlost (err x) got made (λ ct d same. absurd (ground arith))) (λ h.
            modified-GaveUp n none (made ∙ (let same : x ≡ gave_up = ground arith in rw same refl)))

      module _ (sec : Stored Cipher) (got : api.get (at_read s api others n c) ≡ ok sec) where
        -- With the Secret, an attempt loses only when its Update is told of a conflict.
        update_unlost :
            (r : Result (VaultError E) Cipher)
            → modified s api others modifier id n (secret_data sec.content) ≡ r
            → ((ct : Cipher) (m : Map Cipher) (d : Cluster)
                → r ≡ ok ct
                → sec.content ≡ some m
                → ¬ (
                    api.update
                      (record sec { content = some (insert data_key ct m) })
                      (at_write s api others n c)
                    ≡ (err conflict, d)))
            → (e : Cluster) → ¬ LostRound s api others modifier id n c e
        update_unlost r made h e (inl l) = let clash = sym got ∙ l.missing in absurd (ground arith)
        update_unlost r made h e (inr l) =
            let same : l.sec ≡ sec = let both = sym got ∙ l.found in ground arith in
            let wrote : modified s api others modifier id n (secret_data sec.content)
                ≡ ok l.cipher =
              rw same at
                (modified-Writes s api others modifier id n (some l.sec) l.cipher l.writes) in
            h l.cipher l.content e (sym made ∙ wrote) (rw same at l.filled) (rw same at l.stale)

        answered_update :
            (ct : Cipher) (m : Map Cipher) (x : Result ApiError (Unit {0})) (d : Cluster)
            → modified s api others modifier id n (secret_data sec.content) ≡ ok ct
            → sec.content ≡ some m
            → api.update
                (record sec { content = some (insert data_key ct m) })
                (at_write s api others n c)
              ≡ (x, d)
            → x ≢ err conflict
            → (e : Cluster) → ¬ LostRound s api others modifier id n c e
        answered_update ct m x d made filled ran ne =
            update_unlost (ok ct) made (λ ct' m' d' same there stale.
              let key : ct' ≡ ct = ground arith in
              let content : m' ≡ m = let both = sym filled ∙ there in ground arith in
              let both : ◌≡◌ {A = Result ApiError (Unit {0}) × Cluster} (x, d) (err conflict, d') =
                sym ran ∙ (rw content at (rw key at stale)) in
              ne (ap (λ (p : Result ApiError (Unit {0}) × Cluster). p.0) both))

        updated_outcome :
            (ct : Cipher) (m : Map Cipher) (p : Result ApiError (Unit {0}) × Cluster)
            → modified s api others modifier id n (secret_data sec.content) ≡ ok ct
            → sec.content ≡ some m
            → api.update
                (record sec { content = some (insert data_key ct m) })
                (at_write s api others n c)
              ≡ p
            → Outcome n c (after_update s api others n p)
        updated_outcome ct m (err conflict, d) made filled ran =
            let lost : LostUpdate s api others modifier id n c d = record {
              sec = sec;
              content = m;
              found = got;
              filled = filled;
              cipher = ct;
              writes = Writes-modified s api others modifier id n (some sec) ct made;
              stale = ran;
            } in
            elim (Bool-cases (ltb n (max_retries - 1))) [
              | inl more ↦ rw more (lost_update (ground arith) lost)
              | inr last ↦ rw last (last_update (ground arith) lost)
            ]
        updated_outcome ct m (ok u, d) made filled ran =
            answers (answered_update ct m _ d made filled ran (λ h. cc)) (λ h. cc)
        updated_outcome ct m (err not_found, d) made filled ran =
            answers (answered_update ct m _ d made filled ran (λ h. cc)) (λ h. cc)
        updated_outcome ct m (err already_exists, d) made filled ran =
            answers (answered_update ct m _ d made filled ran (λ h. cc)) (λ h. cc)
        updated_outcome ct m (err (other t), d) made filled ran =
            answers (answered_update ct m _ d made filled ran (λ h. cc)) (λ h. cc)

        update_outcome :
            (r : Result (VaultError E) Cipher) (content : Option (Map Cipher))
            → modified s api others modifier id n (secret_data sec.content) ≡ r
            → sec.content ≡ content
            → Outcome n c
                (update_with s api others modifier id n r sec content (at_write s api others n c))
        unfolding update_with
        update_outcome (err x) content made filled =
            answers (update_unlost (err x) made (λ ct m d same. absurd (ground arith))) (λ h.
              modified-GaveUp n _ (made ∙ (let same : x ≡ gave_up = ground arith in rw same refl)))
        update_outcome (ok ct) none made filled =
            answers
              (update_unlost (ok ct) made (λ ct' m d same there stale.
                let clash = sym filled ∙ there in absurd (ground arith)))
              (λ h. cc)
        update_outcome (ok ct) (some m) made filled = updated_outcome ct m _ made filled refl

      failed_get :
          (x : ApiError)
          → api.get (at_read s api others n c) ≡ err x
          → x ≢ not_found
          → (e : Cluster) → ¬ LostRound s api others modifier id n c e
      failed_get x got ne e (inl l) = ne (let both = sym got ∙ l.missing in ground arith)
      failed_get x got ne e (inr l) = let both = sym got ∙ l.found in absurd (ground arith)

      attempt_outcome :
          (r : Result ApiError (Stored Cipher))
          → api.get (at_read s api others n c) ≡ r
          → Outcome n c (attempt_at s api others modifier id n r (at_read s api others n c))
      unfolding attempt_at
      attempt_outcome (ok sec) got = update_outcome sec got _ sec.content refl refl
      attempt_outcome (err not_found) got = create_outcome _ got refl
      attempt_outcome (err already_exists) got =
          answers (failed_get already_exists got (λ h. cc)) (λ h. cc)
      attempt_outcome (err conflict) got = answers (failed_get conflict got (λ h. cc)) (λ h. cc)
      attempt_outcome (err (other t)) got = answers (failed_get (other t) got (λ h. cc)) (λ h. cc)

      pub attempt-Outcome : Outcome n c (attempt s api others modifier id n c)
      unfolding attempt
      attempt-Outcome = attempt_outcome _ refl
