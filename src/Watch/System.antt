-- ===== src/Watch/System.antt =====
-- The watcher in its environment: a file that is edited and replaced, and the queue of events.
use csi_secret_age.Prelude.{
  ℕ, ◌+◌, ◌≤◌, List, [], ◌∷◌, ◌++◌, ◌≡◌, Bool, true, false, if◌then◌else◌, Option, some,
}
use csi_secret_age.Prelude.Maps.{Map}
use csi_secret_age.Load.{Decoders}
use csi_secret_age.Watch.{Op, Watch, event, tick, running, replaces, handle_input}

-- `armed`: a watch is set on the file as it is now. `file` is what reading and parsing it gives.
pub record System (Node : Type 0) : Type 0 where
  pub watch : Watch
  pub armed : Bool
  pub queue : List Op
  pub file : Option (Option (Map Node))
  pub now : ℕ

-- An event is queued only where a watch is set.
abbrev pub notify : Bool → Op → List Op → List Op
notify true op queue = queue ++ op ∷ []
notify false op queue = queue

module _ {Node : Type 0} (yaml : Decoders Node) (reliable : Bool) where
  -- The steps of the environment and of the loop. If `reliable`, a watch is always set again.
  pub data Step (s : System Node) : System Node → Type 0 where
    edit :
        {t : System Node} (file : Option (Option (Map Node))) (op : Op)
        → op.write ≡ true
        → replaces op ≡ false
        → t ≡ record s { file = file; queue = notify s.armed op s.queue }
        → Step s t
    replace :
        {t : System Node} (file : Option (Option (Map Node))) (op : Op)
        → replaces op ≡ true
        → t ≡ record s { file = file; queue = notify s.armed op s.queue; armed = false }
        → Step s t
    noise :
        {t : System Node} (op : Op)
        → replaces op ≡ false
        → t ≡ record s { queue = notify s.armed op s.queue }
        → Step s t
    handle :
        {t : System Node} (op : Op) (rest : List Op) (added : Bool) (w : Watch)
        → s.queue ≡ op ∷ rest
        → (reliable ≡ true → added ≡ true)
        → handle_input yaml s.now (event op added) s.watch ≡ running w
        → t ≡ record s { watch = w; queue = rest; armed = if replaces op then added else s.armed }
        → Step s t
    fire :
        {t : System Node} (deadline : ℕ) (w : Watch)
        → s.watch.timer ≡ some deadline
        → deadline ≤ s.now
        → handle_input yaml s.now (tick s.file) s.watch ≡ running w
        → t ≡ record s { watch = w }
        → Step s t
    pass : {t : System Node} (n : ℕ) → t ≡ record s { now = s.now + n } → Step s t

  pub data Reach (s : System Node) : System Node → Type 0 where
    here : Reach s s
    next : {t u : System Node} → Reach s t → Step t u → Reach s u
