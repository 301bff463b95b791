-- ===== src/Job.antt =====
-- src/job.h and src/job.cc: the state of a job, and what its methods work on. `Sys` is what a
-- method of a job can reach: the job, the event manager and the state file that it shares with its
-- manager, and the trace of the system calls.
pub mod Process
pub mod Frame
pub mod Timer
pub mod Machine
pub mod Group
pub mod Lifecycle
pub mod Periodic
pub mod Child
pub mod Environment
pub mod Uncancelled
pub mod Unstarted
pub mod Reading
pub mod Kept
pub mod Restarted
use relaunchd.Prelude.{
  ℕ, suc, ◌+◌, String, Bool, true, false, not, Option, none, some, List, ◌∷◌, ◌&&◌, ltb,
  if◌then◌else◌,
}
use relaunchd.Prelude.Exec.{
  Exec, Result, ok, err, pure, throw, lift, gets, modify, ◌>>=◌, ◌>>◌, undefined_behaviour,
}
use relaunchd.Prelude.Int.{ℤ, pos, negsuc, minus_one}
use relaunchd.Json.{JsonLib}
use relaunchd.StateFile.{StateFile, FileSystem}
use relaunchd.StateFile.Overrides.{override_of}
use relaunchd.Manifest.{Manifest}
use relaunchd.Event.{EventManager, KernelEventInterface}
use relaunchd.Os.{Os, Call, Trace}

pub data States : Type 0 where
  loaded waiting running exited unloaded : States

pub data Triggers : Type 0 where
  bootstrap start_requested stop_requested process_exited unload_requested : Triggers

pub data Schedule : Type 0 where
  schedule_none schedule_periodic schedule_calendar : Schedule

-- `state` is the current state of the member `fsm`
pub record Job : Type 0 where
  pub started_at : Option ℕ
  pub manifest_path : Option String
  pub manifest : Manifest
  pub pid : ℤ
  pub pgid : ℤ
  pub last_exit_status : ℤ
  pub term_signal : ℕ
  pub schedule : Schedule
  pub state : States
  pub timer_id : Option ℕ
  pub unload_requested : Bool

-- Job::_set_schedule: `manifest.start_interval > 0` on an optional
abbrev pub set_schedule : Option ℕ → Schedule
set_schedule none = Schedule.schedule_none
set_schedule (some n) = if ltb 0 n then Schedule.schedule_periodic else Schedule.schedule_none

-- Job::Job
unfoldable pub new_job : Option String → Manifest → Job
new_job path m = record {
  started_at = none;
  manifest_path = path;
  manifest = m;
  pid = pos 0;
  pgid = minus_one;
  last_exit_status = pos 0;
  term_signal = 0;
  schedule = set_schedule m.start_interval;
  state = States.loaded;
  timer_id = none;
  unload_requested = false;
}

-- Job::stateToString
unfoldable pub state_to_string : States → String
state_to_string States.loaded = "loaded"
state_to_string States.waiting = "waiting"
state_to_string States.running = "running"
state_to_string States.exited = "exited"
state_to_string States.unloaded = "unloaded"

-- Job::triggerToString
unfoldable pub trigger_to_string : Triggers → String
trigger_to_string Triggers.bootstrap = "Bootstrap"
trigger_to_string Triggers.start_requested = "StartRequested"
trigger_to_string Triggers.stop_requested = "StopRequested"
trigger_to_string Triggers.process_exited = "ProcessExited"
trigger_to_string Triggers.unload_requested = "UnloadRequested"

pub record Sys (I J : Type 0) : Type 0 where
  pub job : Job
  pub events : EventManager I
  pub state_file : StateFile J
  pub trace : Trace

-- what the program is built on
pub record Platform (I J : Type 0) : Type 0 where
  pub kernel : KernelEventInterface I
  pub json : JsonLib J
  pub os : Os
  -- what a write of the state file leaves, if it fails
  pub write_failure : Trace → Option (FileSystem J)

module _ {I J : Type 0} where
  abbrev pub on_events : {A : Type 0} → Exec (EventManager I) A → Exec (Sys I J) A
  on_events m s = let (r, e) = m s.events in (r, record s { events = e })

  -- a system call whose answer depends on the calls before it
  abbrev pub call : {A : Type 0} → Call → (Trace → A) → Exec (Sys I J) A
  call c answer s = (ok (answer s.trace), record s { trace = c ∷ s.trace })

  abbrev pub on_job : (Job → Job) → Exec (Sys I J) Unit
  on_job f s = (ok tt, record s { job = f s.job })

  -- `a && b`, where `b` is evaluated only if `a` holds
  abbrev pub and_then : Exec (Sys I J) Bool → Exec (Sys I J) Bool → Exec (Sys I J) Bool
  and_then a b = a >>= λ x. elim x [ true ↦ b | false ↦ pure false ]

module _ {I J : Type 0} (p : Platform I J) where
  -- current_time() of src/clock.h
  abbrev pub current_time : Exec (Sys I J) ℕ
  current_time = call Call.clock_gettime p.os.clock

  -- `*started_at`
  abbrev pub start_time : Exec (Sys I J) ℕ
  start_time s = elim s.job.started_at [ none ↦ (err undefined_behaviour, s) | some t ↦ (ok t, s) ]

  -- Job::shouldThrottle: `now - *started_at < throttle_interval`, in signed arithmetic
  unfoldable pub should_throttle : Exec (Sys I J) Bool
  should_throttle = do
    now ← current_time
    started ← start_time
    interval ← gets (λ s. s.job.manifest.throttle_interval)
    pure (ltb now (started + interval))

  abbrev pub is_off : Bool → Option Bool → Bool
  is_off by_manifest none = by_manifest
  is_off by_manifest (some enabled) = not enabled

  -- Job::isDisabled
  unfoldable pub is_disabled : Exec (Sys I J) Bool
  is_disabled s = elim (override_of p.json s.job.manifest.label.value s.state_file.current_value) [
    | ok o ↦ (ok (is_off s.job.manifest.disabled o), s)
    | err x ↦ (err x, s)
  ]
