-- ===== src/Watch.antt =====
-- `PermissionManager.Watch` of permissions.go: the `select` loop that reloads the permissions file.
-- The file system notifications of fsnotify, the timer and the file are the environment; what
-- `Load` makes of the file is in Load.
pub mod System
pub mod Tracking
pub mod Loss
use csi_secret_age.Prelude.{
  ℕ, ◌+◌, ◌*◌, Text, Bool, true, false, not, ◌&&◌, ◌||◌, if◌then◌else◌, Option, none, some,
}
use csi_secret_age.Prelude.Maps.{Map}
use csi_secret_age.Permissions.{Policy}
use csi_secret_age.Load.{Decoders, load}

-- The operations of one event, of which it may have several.
pub record Op : Type 0 where
  pub create : Bool
  pub write : Bool
  pub remove : Bool
  pub rename : Bool
  pub chmod : Bool

pub data WatchError : Type 0 where
  cannot_watch : WatchError
  event_channel_closed : WatchError
  error_channel_closed : WatchError

-- Nanoseconds.
abbrev pub debounce : ℕ
debounce = 100 * 1_000_000

-- The loop between two rounds: the deadline of the reload timer, if it runs, and the permissions.
pub record Watch : Type 0 where
  pub timer : Option ℕ
  pub policy : Policy

-- What the `select` receives. An event carries whether `addWatch` would succeed; the tick of the
-- timer carries what reading and parsing the file gives then.
pub data Input (Node : Type 0) : Type 0 where
  cancelled : Input Node
  event : Op → Bool → Input Node
  events_closed : Input Node
  watcher_error : Input Node
  errors_closed : Input Node
  tick : Option (Option (Map Node)) → Input Node

pub data Outcome : Type 0 where
  running : Watch → Outcome
  returned : Option WatchError → Outcome

-- `resetReloadTimer`
abbrev pub reset_timer : ℕ → Watch → Watch
reset_timer now w = record w { timer = some (now + debounce) }

-- The file went away from under the watch.
abbrev pub replaces : Op → Bool
replaces op = op.remove || op.rename

unfoldable pub handle_event : ℕ → Op → Bool → Watch → Watch
handle_event now op added w =
    if replaces op
    then (if added then reset_timer now w else w)
    else if not op.write && not op.create && not op.chmod
    then w
    else reset_timer now w

module _ {Node : Type 0} (yaml : Decoders Node) where
  -- One round of the loop at the time `now`. An error of `Load` is only logged.
  unfoldable pub handle_input : ℕ → Input Node → Watch → Outcome
  handle_input now cancelled w = returned none
  handle_input now (event op added) w = running (handle_event now op added w)
  handle_input now events_closed w = returned (some event_channel_closed)
  handle_input now watcher_error w = running w
  handle_input now errors_closed w = returned (some error_channel_closed)
  handle_input now (tick file) w =
      running (record { timer = none; policy = (load yaml file w.policy).0 })

  -- `Watch` up to the loop: the first watch has to succeed, and the timer does not run.
  unfoldable pub start_watch : Bool → Policy → Outcome
  start_watch false pol = returned (some cannot_watch)
  start_watch true pol = running (record { timer = none; policy = pol })
