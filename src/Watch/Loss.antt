-- ===== src/Watch/Loss.antt =====
-- What follows when the watch cannot be set again.
use csi_secret_age.Prelude.{ℕ, [], ◌∷◌, ◌≡◌, refl, sym, ap, ◌∙◌, Bool, true, false, arith, none}
use csi_secret_age.Permissions.{Policy}
use csi_secret_age.Load.{Decoders}
use csi_secret_age.Watch.{Op, Watch, event, running, replaces, handle_event, handle_input}
use csi_secret_age.Watch.System.{
  System, notify, Step, edit, replace, noise, handle, fire, pass, Reach, here, next,
}

-- No watch, nothing queued, and no reload due: the state after an event of removal at which the
-- watch could not be set again, the queue being empty.
pub record IsDeaf {Node : Type 0} (pol : Policy) (s : System Node) : Type 0 where
  pub unarmed : s.armed ≡ false
  pub no_event : s.queue ≡ []
  pub no_timer : s.watch.timer ≡ none
  pub same : s.watch.policy ≡ pol

module _ {Node : Type 0} (yaml : Decoders Node) (reliable : Bool) (pol : Policy) where
  unnotified : (s : System Node) (op : Op) → IsDeaf pol s → notify s.armed op s.queue ≡ []
  unnotified s op h = rw h.unarmed h.no_event

  Step-IsDeaf : {s t : System Node} → Step yaml reliable s t → IsDeaf pol s → IsDeaf pol t
  Step-IsDeaf {s} {t} (edit file op written plain e) h = rw e (record {
    unarmed = h.unarmed;
    no_event = unnotified s op h;
    no_timer = h.no_timer;
    same = h.same;
  })
  Step-IsDeaf {s} {t} (replace file op gone e) h = rw e (record {
    unarmed = refl;
    no_event = unnotified s op h;
    no_timer = h.no_timer;
    same = h.same;
  })
  Step-IsDeaf {s} {t} (noise op plain e) h = rw e (record {
    unarmed = h.unarmed;
    no_event = unnotified s op h;
    no_timer = h.no_timer;
    same = h.same;
  })
  Step-IsDeaf {s} {t} (handle op rest added w q sure run e) h =
      absurd (let x = sym h.no_event ∙ q in cc)
  Step-IsDeaf {s} {t} (fire deadline w q le run e) h = absurd (let x = sym h.no_timer ∙ q in cc)
  Step-IsDeaf {s} {t} (pass n e) h =
      rw e (record {
        unarmed = h.unarmed;
        no_event = h.no_event;
        no_timer = h.no_timer;
        same = h.same;
      })

  Reach-IsDeaf : {s t : System Node} → Reach yaml reliable s t → IsDeaf pol s → IsDeaf pol t
  Reach-IsDeaf here h = h
  Reach-IsDeaf (next r st) h = Step-IsDeaf st (Reach-IsDeaf r h)

module _ {Node : Type 0} (yaml : Decoders Node) (reliable : Bool) where
  not_added :
      (now : ℕ) (op : Op) (v w : Watch)
      → replaces op ≡ true
      → handle_input yaml now (event op false) v ≡ running w
      → w ≡ v
  unfolding handle_input handle_event
  not_added now op v w gone h = ground arith

  -- When the file is removed or renamed and the watch cannot be set again, with no other event queued
  -- and no reload due, the loop goes on but never reloads: whatever is done to the file afterwards,
  -- the permissions stay those of that moment.
  pub handle_input-lost :
      (s t : System Node) (op : Op) (w : Watch)
      → replaces op ≡ true
      → s.queue ≡ op ∷ []
      → s.watch.timer ≡ none
      → handle_input yaml s.now (event op false) s.watch ≡ running w
      → Reach yaml reliable (record s { watch = w; queue = []; armed = false }) t
      → t.watch.policy ≡ s.watch.policy
  handle_input-lost s t op w gone last idle run r =
      let kept : w ≡ s.watch = not_added s.now op s.watch w gone run in
      let deaf : IsDeaf s.watch.policy (record s { watch = w; queue = []; armed = false }) =
        record {
          unarmed = refl;
          no_event = refl;
          no_timer = ap (λ (v : Watch). v.timer) kept ∙ idle;
          same = ap (λ (v : Watch). v.policy) kept;
        } in
      (Reach-IsDeaf yaml reliable s.watch.policy r deaf).same
