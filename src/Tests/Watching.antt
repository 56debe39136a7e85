-- ===== src/Tests/Watching.antt =====
-- Runs of the watcher.
use csi_secret_age.Prelude.{
  Text, List, [], ◌∷◌, ◌≡◌, refl, true, false, codes, Option, none, some, arith, ◌==◌,
}
use csi_secret_age.Prelude.Maps.{Map}
use csi_secret_age.Permissions.{Policy}
use csi_secret_age.Load.{Decoders, load, load_entry}
use csi_secret_age.Watch.{Op, handle_input, handle_event}
use csi_secret_age.Watch.System.{System, Reach, here, next, edit, replace, handle, fire, pass}
use csi_secret_age.Watch.Tracking.{IsTracked, current, Reach-IsTracked}
use csi_secret_age.Watch.Loss.{handle_input-lost}

-- A node is a list of user names.
abbrev names : Decoders (List Text)
names = record {
  strings = λ node old. (node, true);
  nodes = λ node. none;
  policies = λ node old. ([], true);
}

abbrev admins : Text → Policy
admins name = record { permissions = []; admins = name ∷ []; namespace_permissions = [] }

abbrev file_of : Text → Option (Option (Map (List Text)))
file_of name = some (some ((codes "admin_users", name ∷ []) ∷ []))

abbrev quiet : System (List Text)
quiet = record {
  watch = record { timer = none; policy = admins (codes "alice") };
  armed = true;
  queue = [];
  file = file_of (codes "alice");
  now = 7;
}

abbrev removed : Op
removed = record { create = false; write = false; remove = true; rename = false; chmod = true }

abbrev swapped : System (List Text)
swapped = record quiet { armed = false; queue = removed ∷ []; file = file_of (codes "bob") }

abbrev waiting : System (List Text)
waiting = record {
  watch = record { timer = some 100_000_007; policy = admins (codes "alice") };
  armed = true;
  queue = [];
  file = file_of (codes "bob");
  now = 100_000_010;
}

abbrev reloaded : System (List Text)
reloaded = record waiting { watch = record { timer = none; policy = admins (codes "bob") } }

quiet-IsTracked : IsTracked names quiet
unfolding load load_entry ◌==◌
quiet-IsTracked = record { tracks = current (admins (codes "alice"), refl); kept = λ h. cc }

-- The file is replaced, the event is handled, and the reload takes effect.
swap_run : Reach names true quiet reloaded
unfolding handle_input load handle_event load_entry ◌==◌
swap_run =
    next
      (next
        (next (next here (replace (file_of (codes "bob")) removed refl refl)) (
          handle removed [] true
            (record { timer = some 100_000_007; policy = admins (codes "alice") }) refl (λ h. refl)
            refl refl))
        (pass 100_000_003 refl))
      (fire 100_000_007 (record { timer = none; policy = admins (codes "bob") }) refl (omega arith)
        refl refl)

Reach-IsTracked_example : IsTracked names reloaded
Reach-IsTracked_example = Reach-IsTracked names swap_run quiet-IsTracked

-- The watch is lost, and a later edit changes nothing.
deaf_run :
    Reach names false
      (record swapped { queue = []; armed = false })
      (record swapped { queue = []; armed = false; file = file_of (codes "carol") })
deaf_run = next here (
    edit (file_of (codes "carol"))
      (record { create = false; write = true; remove = false; rename = false; chmod = false }) refl
      refl refl)

handle_input-lost_example :
    (record swapped { queue = []; armed = false; file = file_of (codes "carol") }).watch.policy
    ≡ swapped.watch.policy
unfolding handle_input handle_event
handle_input-lost_example =
    handle_input-lost names false swapped
      (record swapped { queue = []; armed = false; file = file_of (codes "carol") }) removed
      (record { timer = none; policy = admins (codes "alice") }) refl refl refl refl deaf_run
