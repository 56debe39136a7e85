-- ===== src/Watch/Tracking.antt =====
-- No change of the permissions file is missed while the watch can be set again.
use csi_secret_age.Prelude.{
  ℕ, ◌+◌, ◌≤◌, List, [], ◌∷◌, ◌≡◌, refl, Bool, true, false, ◌||◌, any, arith, if◌then◌else◌, Option,
  none, some, Bool-cases, inl, inr,
}
use csi_secret_age.Prelude.Maps.{Map}
use csi_secret_age.Permissions.{Policy}
use csi_secret_age.Load.{Decoders, load}
use csi_secret_age.Watch.{
  Op, Watch, event, tick, running, replaces, handle_input, handle_event, debounce,
}
use csi_secret_age.Watch.System.{
  System, notify, Step, edit, replace, noise, handle, fire, pass, Reach, here, next,
}

-- An event that makes the loop set the timer.
abbrev pub alerts : Op → Bool
alerts op = replaces op || op.write || op.create || op.chmod

any-notify :
    (p : Op → Bool) (armed : Bool) (op : Op) (queue : List Op)
    → any p queue ≡ true
    → any p (notify armed op queue) ≡ true
any-notify p false op queue h = h
any-notify p true op [] h = cc
any-notify p true op (x ∷ queue) h = ground (arith, any-notify p true op queue)

any-notify_armed :
    (p : Op → Bool) (op : Op) (queue : List Op) → p op ≡ true → any p (notify true op queue) ≡ true
any-notify_armed p op [] h = ground arith
any-notify_armed p op (x ∷ queue) h = ground (arith, any-notify_armed p op queue h)

any-replaces : (queue : List Op) → any replaces queue ≡ true → any alerts queue ≡ true
any-replaces [] h = cc
any-replaces (op ∷ queue) h = ground (arith, any-replaces queue)

module _ {Node : Type 0} (yaml : Decoders Node) where
  -- The permissions are what `Load` makes of the file as it is.
  abbrev pub InForce : System Node → Type 0
  InForce s = (before : Policy) × (s.watch.policy ≡ (load yaml s.file before).0)

  pub data Tracks (s : System Node) : Type 0 where
    current : InForce s → Tracks s
    due : (deadline : ℕ) → s.watch.timer ≡ some deadline → deadline ≤ s.now + debounce → Tracks s
    queued : any alerts s.queue ≡ true → Tracks s

  -- The file is the one in force, or a reload is due within the debounce time, or an event is
  -- queued that will set the timer; and a watch that was lost is about to be set again.
  pub record IsTracked (s : System Node) : Type 0 where
    pub tracks : Tracks s
    pub kept : s.armed ≡ false → any replaces s.queue ≡ true

  edit-queued :
      (s : System Node) (op : Op)
      → alerts op ≡ true
      → (s.armed ≡ false → any replaces s.queue ≡ true)
      → any alerts (notify s.armed op s.queue) ≡ true
  edit-queued s op h kept = elim (Bool-cases s.armed) [
    | inl armed ↦ rw armed (any-notify_armed alerts op s.queue h)
    | inr lost ↦ rw lost (any-replaces s.queue (kept lost))
  ]

  replaced-kept :
      (armed : Bool) (op : Op) (queue : List Op)
      → replaces op ≡ true
      → (armed ≡ false → any replaces queue ≡ true)
      → any replaces (notify armed op queue) ≡ true
  replaced-kept true op queue h kept = any-notify_armed replaces op queue h
  replaced-kept false op queue h kept = kept refl

  noise-Tracks :
      (s : System Node) (op : Op)
      → Tracks s
      → Tracks (record s { queue = notify s.armed op s.queue })
  noise-Tracks s op (current f) = current f
  noise-Tracks s op (due d e le) = due d e le
  noise-Tracks s op (queued h) = queued (any-notify alerts s.armed op s.queue h)

  pass-Tracks : (s : System Node) (n : ℕ) → Tracks s → Tracks (record s { now = s.now + n })
  pass-Tracks s n (current f) = current f
  pass-Tracks s n (due d e le) = due d e (omega arith)
  pass-Tracks s n (queued h) = queued h

  -- An event that does not alert leaves what is tracked.
  quiet-Tracks :
      (s : System Node) (op : Op) (rest : List Op) (armed : Bool)
      → s.queue ≡ op ∷ rest
      → alerts op ≡ false
      → Tracks s
      → Tracks (record s { queue = rest; armed = armed })
  quiet-Tracks s op rest armed e quiet (current f) = current f
  quiet-Tracks s op rest armed e quiet (due d q le) = due d q le
  quiet-Tracks s op rest armed e quiet (queued h) =
      let first : any alerts (op ∷ rest) ≡ true = rw e at h in queued (ground arith)

  rest-kept :
      (s : System Node) (op : Op) (rest : List Op)
      → s.queue ≡ op ∷ rest
      → replaces op ≡ false
      → any replaces s.queue ≡ true
      → any replaces rest ≡ true
  rest-kept s op rest e plain h =
      let first : any replaces (op ∷ rest) ≡ true = rw e at h in ground arith

  handle_event_alert :
      (now : ℕ) (op : Op) (w : Watch)
      → alerts op ≡ true
      → handle_event now op true w ≡ record w { timer = some (now + debounce) }
  unfolding handle_event
  handle_event_alert now op w h = ground arith

  handle_event_quiet :
      (now : ℕ) (op : Op) (added : Bool) (w : Watch)
      → alerts op ≡ false
      → handle_event now op added w ≡ w
  unfolding handle_event
  handle_event_quiet now op added w h = ground arith

  handled :
      (now : ℕ) (op : Op) (added : Bool) (v w : Watch)
      → handle_input yaml now (event op added) v ≡ running w
      → w ≡ handle_event now op added v
  unfolding handle_input
  handled now op added v w h = ground arith

  handle_true-IsTracked :
      (s : System Node) (op : Op) (rest : List Op)
      → s.queue ≡ op ∷ rest
      → IsTracked s
      → IsTracked (record s {
        watch = handle_event s.now op true s.watch;
        queue = rest;
        armed = if replaces op then true else s.armed;
      })
  handle_true-IsTracked s op rest e h = elim (Bool-cases (alerts op)) [
    | inr quiet ↦
        rw (handle_event_quiet s.now op true s.watch quiet)
          (record { tracks = quiet-Tracks s op rest _ e quiet h.tracks; kept = still_kept })
    | inl alert ↦
        rw (handle_event_alert s.now op s.watch alert)
          (record { tracks = due (s.now + debounce) refl (omega arith); kept = still_kept })
  ]
    where
      still_kept : (if replaces op then true else s.armed) ≡ false → any replaces rest ≡ true
      still_kept lost = elim (Bool-cases (replaces op)) [
        | inl yes' ↦ absurd (ground arith)
        | inr no' ↦ rest-kept s op rest e no' (h.kept (ground arith))
      ]

  fired :
      (now : ℕ) (file : Option (Option (Map Node))) (v w : Watch)
      → handle_input yaml now (tick file) v ≡ running w
      → w ≡ record { timer = none; policy = (load yaml file v.policy).0 }
  unfolding handle_input
  fired now file v w h = ground arith

  Step-IsTracked : {s t : System Node} → Step yaml true s t → IsTracked s → IsTracked t
  Step-IsTracked {s} {t} (edit file op written plain e) h = rw e (record {
    tracks = queued (edit-queued s op (ground arith) h.kept);
    kept = λ lost. any-notify replaces s.armed op s.queue (h.kept lost);
  })
  Step-IsTracked {s} {t} (replace file op gone e) h = rw e (record {
    tracks = queued (edit-queued s op (ground arith) h.kept);
    kept = λ lost. replaced-kept s.armed op s.queue gone h.kept;
  })
  Step-IsTracked {s} {t} (noise op plain e) h = rw e (record {
    tracks = noise-Tracks s op h.tracks;
    kept = λ lost. any-notify replaces s.armed op s.queue (h.kept lost);
  })
  Step-IsTracked {s} {t} (handle op rest added w q sure run e) h =
      let same : added ≡ true = sure refl in
      rw e
        (rw (handled s.now op added s.watch w run) (rw same (handle_true-IsTracked s op rest q h)))
  Step-IsTracked {s} {t} (fire deadline w q le run e) h = rw e (
      rw (fired s.now s.file s.watch w run)
        (record { tracks = current (s.watch.policy, refl); kept = h.kept }))
  Step-IsTracked {s} {t} (pass n e) h =
      rw e (record { tracks = pass-Tracks s n h.tracks; kept = h.kept })

  -- While every watch that is lost can be set again, from a state in which this holds, no change of
  -- the file is missed, however edits, replacements, events and reloads interleave: either the
  -- permissions are what `Load` makes of the file as it is, or a reload is due within 100 ms, or an
  -- event is queued that sets the timer; and a watch that is lost is about to be set again.
  pub Reach-IsTracked : {s t : System Node} → Reach yaml true s t → IsTracked s → IsTracked t
  Reach-IsTracked here h = h
  Reach-IsTracked (next r st) h = Step-IsTracked st (Reach-IsTracked r h)
