-- ===== src/Tests/Parts.antt =====
-- The theorems on the readers, the state file, the timers and the engine of the state machines at
-- concrete inputs.
use relaunchd.Prelude.{
  arith, ℕ, ◌<◌, ◌≡◌, ◌≢◌, refl, Bool, true, false, none, some, [], ◌∷◌, ◌==◌, string_eq, nat_eq,
}
use relaunchd.Prelude.Exec.{ok, pure}
use relaunchd.Prelude.Assoc.{lookup, contains, insert}
use relaunchd.Fsm.{Trans, Machine, execute}
use relaunchd.Fsm.Choice.{execute-choice, choice}
use relaunchd.Manifest.{
  Manifest, has_slash, from_json, steps, run_steps, finish, read, refuse, new_label, rectify,
  validate,
}
use relaunchd.Manifest.WellFormed.{IsWellFormed, from_json-IsWellFormed}
use relaunchd.Manifest.Refused.{from_json-Umask}
use relaunchd.Event.{TimerCallback, EventManager, add_timer, get_next_timer_id, next_timer_id}
use relaunchd.Event.Timers.{get_next_timer_id_lem}
use relaunchd.Tests.Values.{Value, object, entry, nil, text, number, flag, json, find, has}
use relaunchd.Tests.Systems.{kernel, no_events, manifest_of}

-- a machine inside a number: the state is the number
abbrev counter : Machine ℕ ℕ ℕ
counter = record {
  same_state = λ a b. a == b;
  same_trigger = λ a b. a == b;
  get = λ n. n;
  set = λ n m. n;
}

abbrev edge : ℕ → Bool → Trans ℕ ℕ ℕ
edge n open_ = record {
  from_state = 0;
  to_state = n;
  trigger = 7;
  guard = some (pure open_);
  action = none;
}

-- the guards of the edges, by where they lead
abbrev passes : Trans ℕ ℕ ℕ → Bool
passes tr = tr.to_state == 2

execute-choice_example :
    execute counter (edge 1 false ∷ edge 2 true ∷ []) 7 0
    ≡ choice counter passes (edge 1 false ∷ edge 2 true ∷ []) 7 0
execute-choice_example =
    execute-choice counter passes (edge 1 false ∷ edge 2 true ∷ []) 7 0 (refl, (refl, tt))

abbrev good : Value
good = object (
    entry "Label" (text "com.example.web")
      (entry "Program" (text "/bin/web") (entry "RunAtLoad" (flag true) nil)))

abbrev good_manifest : Manifest
good_manifest = record (manifest_of "com.example.web" false none) {
  program = some "/bin/web";
  program_arguments = "/bin/web" ∷ [];
  run_at_load = true;
}

good_accepted : from_json json good ≡ ok good_manifest
unfolding from_json finish run_steps steps read refuse rectify validate new_label has_slash find has
good_accepted = refl

from_json-IsWellFormed_example : IsWellFormed good_manifest
from_json-IsWellFormed_example = from_json-IsWellFormed json good good_manifest good_accepted

from_json-Umask_example : from_json json (object (entry "Umask" (number 18) nil)) ≢ ok good_manifest
unfolding find has
from_json-Umask_example =
    from_json-Umask json (object (entry "Umask" (number 18) nil)) good_manifest (number 18) refl
      refl refl

abbrev one_timer : EventManager Unit
one_timer = record no_events {
  timer_callbacks = (1, TimerCallback.start_periodic "com.example.tick") ∷ [];
}

get_next_timer_id_lem_example :
    (id : ℕ) × (get_next_timer_id kernel one_timer
      ≡ (ok id, record one_timer { timer_id_max = id }))
    × (contains id one_timer.timer_callbacks ≡ false)
    × (0 < id)
get_next_timer_id_lem_example = get_next_timer_id_lem kernel one_timer (omega arith)

abbrev two_timers : EventManager Unit
two_timers = record no_events {
  timer_id_max = 3;
  timer_callbacks =
      (3, TimerCallback.restart_throttled "com.example.web")
      ∷ (1, TimerCallback.start_periodic "com.example.tick")
      ∷ [];
}

timer_added :
    add_timer kernel 5000 (TimerCallback.restart_throttled "com.example.web") one_timer
    ≡ (ok 3, two_timers)
unfolding add_timer get_next_timer_id next_timer_id insert lookup
timer_added = refl
