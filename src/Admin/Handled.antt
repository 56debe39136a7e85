-- ===== src/Admin/Handled.antt =====
-- What the handlers of the admin UI do for somebody with given permissions.
use csi_secret_age.Prelude.{
  ℕ, Text, ◌≡◌, refl, true, false, not, ◌||◌, arith, codes, ◌==◌, ==_iff, Option, none, some,
  Result, ok, err, Bool-cases, inl, inr,
}
use csi_secret_age.Paths.{normalize_path}
use csi_secret_age.Permissions.{UserPermissions}
use csi_secret_age.Tree.{put_node}
use csi_secret_age.Pages.{UiState, handle_entry}
use csi_secret_age.Pages.Readable.{PageOf, handle_index-PageOf, handle_entry-PageOf}
use csi_secret_age.Vault.{VaultManager, unlock}
use csi_secret_age.Vault.External.{SecretApi, Sealing}
use csi_secret_age.Vault.Writing.{update_vault}
use csi_secret_age.Web.{
  Reply, status, UpdateForm, UpdateError, read_form, check_update, update_checked, saved, may_write,
  may_unlock, may_export, delete_modifier, unlocked_reply, handle_update, handle_delete,
  handle_unlock, handle_export, exported, root,
}
use csi_secret_age.Web.Editing.{Passes, check_update-Passes}
use csi_secret_age.Admin.{
  Request, Route, at_root, at_entry, at_unlock, at_update, at_delete, at_export, Answer, page,
  reply, by_mux, page_or_refusal, Live, handle,
}

module _ (s : Sealing) (api : SecretApi s.Cipher) (others : ℕ → api.Cluster → api.Cluster) where
  open s use {Key, Cipher}
  open api use {Cluster}

  -- What the handlers do for somebody with the permissions `up`: nothing, show a page of what `up`
  -- may read, hand out the vault to whom may export, or one change, by POST and only to whom may
  -- make it.
  pub data Did (up : Option UserPermissions) (req : Request) (l : Live s api)
      : Answer Cipher → Live s api → Type 0 where
    refused : (n : ℕ) → Did up req l (reply (status n)) l
    answered_by_mux : Did up req l by_mux l
    shown : (st : UiState) → PageOf s api l.manager l.cluster up st → Did up req l (page st) l
    handed_out :
        l.manager.is_locked ≡ false
        → may_export up ≡ true
        → Did up req l (reply (exported s api (api.get l.cluster))) l
    tried_unlock :
        req.method ≡ codes "POST"
        → may_unlock up ≡ true
        → (p : Reply Cipher × VaultManager Key)
        → p
          ≡ unlocked_reply s api (unlock s api l.manager (req.form (codes "master_key")) l.cluster)
        → Did up req l (reply p.0) (record l { manager = p.1 })
    tried_update :
        req.method ≡ codes "POST"
        → l.manager.is_locked ≡ false
        → Passes up (read_form req.form)
        → (p : Reply Cipher × Cluster)
        → (let f = read_form req.form in
            p
            ≡ saved s api root (
                update_vault s api others l.manager
                  (put_node f.path f.is_folder f.value)
                  l.cluster))
        → Did up req l (reply p.0) (record l { cluster = p.1 })
    tried_delete :
        req.method ≡ codes "POST"
        → l.manager.is_locked ≡ false
        → may_write up (normalize_path (req.form (codes "path"))) ≡ true
        → (location : Text) (p : Reply Cipher × Cluster)
        → p
          ≡ saved s api location (
              update_vault s api others l.manager
                (delete_modifier s api others (normalize_path (req.form (codes "path"))))
                l.cluster)
        → Did up req l (reply p.0) (record l { cluster = p.1 })

  module _ (up : Option UserPermissions) (req : Request) (l : Live s api) where
    update_checked-Did :
        (r : Result UpdateError UpdateForm)
        → req.method ≡ codes "POST"
        → l.manager.is_locked ≡ false
        → check_update up (read_form req.form) ≡ r
        → (let p = update_checked s api others l.manager l.cluster r in
            Did up req l (reply p.0) (record l { cluster = p.1 }))
    update_checked-Did (err e) post unlocked h = refused 500
    update_checked-Did (ok g) post unlocked h =
        let (passes, same) = check_update-Passes up (read_form req.form) g h in
        tried_update post unlocked passes _ (rw (← same) refl)

    update-Did :
        (let p = handle_update s api others l.manager up req.method req.form l.cluster in
          Did up req l (reply p.0) (record l { cluster = p.1 }))
    unfolding handle_update
    update-Did = elim (Bool-cases (not (req.method == codes "POST") || l.manager.is_locked)) [
      | inl turned_away ↦ rw (turned_away, handle_update) (refused 405)
      | inr accepted ↦
          rw (accepted, handle_update)
            (update_checked-Did (check_update up (read_form req.form))
              (ground (arith, ==_iff req.method (codes "POST"))) (ground arith) refl)
    ]

    delete-Did :
        (let p = handle_delete s api others l.manager up req.method req.form l.cluster in
          Did up req l (reply p.0) (record l { cluster = p.1 }))
    unfolding handle_delete
    delete-Did = elim (Bool-cases (not (req.method == codes "POST") || l.manager.is_locked)) [
      | inl turned_away ↦ rw (turned_away, handle_delete) (refused 405)
      | inr accepted ↦ elim (Bool-cases (may_write up (normalize_path (req.form (codes "path"))))) [
        | inr denied ↦ rw (accepted, handle_delete) (rw denied (refused 403))
        | inl allowed ↦
            rw (accepted, handle_delete)
              (rw allowed (
                tried_delete (ground (arith, ==_iff req.method (codes "POST"))) (ground arith)
                  allowed _ _ refl))
      ]
    ]

    unlock-Did :
        (let p = handle_unlock s api l.manager up req.method req.form l.cluster in
          Did up req l (reply p.0) (record l { manager = p.1 }))
    unfolding handle_unlock
    unlock-Did = elim (Bool-cases (req.method == codes "POST")) [
      | inr other ↦ rw (other, handle_unlock) (refused 405)
      | inl post ↦ elim (Bool-cases (may_unlock up)) [
        | inr denied ↦ rw (post, handle_unlock) (rw denied (refused 403))
        | inl allowed ↦
            rw (post, handle_unlock)
              (rw allowed
                (tried_unlock (ground (arith, ==_iff req.method (codes "POST"))) allowed _ refl))
      ]
    ]

    export-Did : Did up req l (reply (handle_export s api l.manager up l.cluster)) l
    unfolding handle_export
    export-Did = elim (Bool-cases l.manager.is_locked) [
      | inl locked ↦ rw (locked, handle_export) (refused 403)
      | inr unlocked ↦ elim (Bool-cases (may_export up)) [
        | inr denied ↦ rw (unlocked, handle_export) (rw denied (refused 403))
        | inl allowed ↦
            let ran : handle_export s api l.manager up l.cluster
                ≡ exported s api (api.get l.cluster) =
              ground arith in
            rw ran (handed_out unlocked allowed)
      ]
    ]

    entry-Did :
        (o : Option UiState)
        → handle_entry s api l.manager up req.method req.path_query l.cluster ≡ o
        → Did up req l (page_or_refusal o) l
    entry-Did none h = refused 405
    entry-Did (some st) h =
        shown st (handle_entry-PageOf s api l.manager l.cluster up req.path_query req.method st h).1

    pub handle-Did :
        (route : Route) → (let p = handle s api others up req route l in Did up req l p.0 p.1)
    unfolding handle
    handle-Did at_root = elim (Bool-cases (req.url_path == codes "/")) [
      | inl top ↦
          rw (top, handle)
            (shown _ (handle_index-PageOf s api l.manager l.cluster up req.path_query))
      | inr other ↦ rw (other, handle) (refused 404)
    ]
    handle-Did at_entry = entry-Did _ refl
    handle-Did at_unlock = unlock-Did
    handle-Did at_update = update-Did
    handle-Did at_delete = delete-Did
    handle-Did at_export = export-Did
