-- ===== src/Job/Machine.antt =====
-- src/job.cc: the state machine of a job (Job::initFSM), the requests that drive it, and the
-- callbacks that Job::startJob and the timers register.
pub mod Step
pub mod Timed
pub mod Advances
pub mod Final
use relaunchd.Prelude.{
  ℕ, zero, suc, Bool, true, false, not, Option, none, some, List, [], ◌∷◌, ◌&&◌, ◌||◌,
  if◌then◌else◌, ◌==◌, ◌≡◌,
}
use relaunchd.Prelude.Assoc.{is_some}
use relaunchd.Prelude.Exec.{Exec, Result, ok, err, pure, throw, gets, modify, ◌>>=◌, ◌>>◌, noexcept}
use relaunchd.Prelude.Int.{ℤ, pos, minus_one, int_eq}
use relaunchd.Fsm.{Trans, Machine, FsmStatus, execute}
use relaunchd.Event.{WaitStatus, EventManager, submit_ipc_callback, delete_process}
use relaunchd.Os.{Call, Trace}
use relaunchd.StateFile.{StateFile}
use relaunchd.Job.{
  Job, Sys, Platform, States, Triggers, on_job, on_events, call, and_then, is_disabled,
  should_throttle,
}
use relaunchd.Job.Process.{
  start_job, kill_job, kill_process_group, reap_child_process, sigterm, sigkill, send,
}
use relaunchd.Job.Timer.{
  start_after_throttle_interval, schedule_periodic_job, cancel_timer, cancel_any_timer,
}

abbrev pub same_state : States → States → Bool
same_state States.loaded States.loaded = true
same_state States.waiting States.waiting = true
same_state States.running States.running = true
same_state States.exited States.exited = true
same_state States.unloaded States.unloaded = true
same_state _ _ = false

abbrev pub same_trigger : Triggers → Triggers → Bool
same_trigger Triggers.bootstrap Triggers.bootstrap = true
same_trigger Triggers.start_requested Triggers.start_requested = true
same_trigger Triggers.stop_requested Triggers.stop_requested = true
same_trigger Triggers.process_exited Triggers.process_exited = true
same_trigger Triggers.unload_requested Triggers.unload_requested = true
same_trigger _ _ = false

module _ {I J : Type 0} where
  abbrev pub put_state : States → Sys I J → Sys I J
  put_state st s = record s { job = record s.job { state = st } }

  abbrev pub machine : Machine States Triggers (Sys I J)
  machine = record {
    same_state = same_state;
    same_trigger = same_trigger;
    get = λ s. s.job.state;
    set = put_state;
  }

module _ {I J : Type 0} (p : Platform I J) where
  open p use {kernel}

  abbrev pub Guard : Type 0
  Guard = Exec (Sys I J) Bool

  abbrev pub Action : Type 0
  Action = Exec (Sys I J) Unit

  abbrev pub transition :
      States → States → Triggers → Guard → Action → Trans States Triggers (Sys I J)
  transition from to t guard action = record {
    from_state = from;
    to_state = to;
    trigger = t;
    guard = some guard;
    action = some action;
  }

  abbrev always : Guard
  always = pure true

  abbrev enabled : Guard
  enabled = is_disabled p >>= λ off. pure (not off)

  abbrev wants_start : Guard
  wants_start s = (ok (s.job.manifest.run_at_load || s.job.manifest.keep_alive.always), s)

  abbrev is_periodic : Guard
  is_periodic s = (ok (is_some s.job.manifest.start_interval && not s.job.manifest.run_at_load), s)

  abbrev kept_alive : Guard
  kept_alive s = (ok s.job.manifest.keep_alive.always, s)

  abbrev staying : Guard
  staying s = (ok (not s.job.unload_requested), s)

  abbrev leaving : Guard
  leaving s = (ok s.job.unload_requested, s)

  abbrev finished : Guard
  finished s = (
    ok (
        not s.job.manifest.keep_alive.always
        && (not (is_some s.job.manifest.start_interval) && not s.job.unload_requested)),
    s,
  )

  -- `eventmgr.submitIpcCallback("delete_job", label)`
  abbrev pub submit_delete : Action
  submit_delete s = on_events (submit_ipc_callback kernel "delete_job" s.job.manifest.label.value) s

  -- the transitions of Job::initFSM, in order; `fire` is `fsm.execute`, which the first action calls
  unfoldable pub transitions :
      (Triggers → Exec (Sys I J) FsmStatus) → List (Trans States Triggers (Sys I J))
  transitions fire =
      transition States.loaded States.running Triggers.bootstrap (and_then enabled wants_start)
        (fire Triggers.start_requested >> pure tt)
      ∷ transition States.loaded States.waiting Triggers.bootstrap (and_then enabled is_periodic)
          (schedule_periodic_job p)
      ∷ transition States.loaded States.running Triggers.start_requested always (start_job p)
      ∷ transition States.loaded States.unloaded Triggers.unload_requested always submit_delete
      ∷ transition States.waiting States.running Triggers.start_requested always
          (cancel_any_timer p >> start_job p)
      ∷ transition States.waiting States.unloaded Triggers.unload_requested always
          (cancel_any_timer p >> submit_delete)
      ∷ transition States.running States.exited Triggers.process_exited finished (pure tt)
      ∷ transition States.running States.running Triggers.process_exited
          (and_then kept_alive (and_then (should_throttle p >>= λ b. pure (not b)) staying))
          (start_job p)
      ∷ transition States.running States.running Triggers.stop_requested always
          (kill_job p sigterm >> pure tt)
      ∷ transition States.running States.waiting Triggers.process_exited
          (and_then kept_alive (and_then (should_throttle p) staying))
          (start_after_throttle_interval p)
      ∷ transition States.running States.unloaded Triggers.process_exited leaving submit_delete
      ∷ transition States.exited States.unloaded Triggers.unload_requested always submit_delete
      ∷ []

  -- `fsm.execute(t)`, with a bound on how deep the calls from actions nest
  unfoldable pub nested : ℕ → Triggers → Exec (Sys I J) FsmStatus
  unfolding transitions execute
  nested zero t = pure FsmStatus.no_matching_trigger
  nested (suc depth) t = execute machine (transitions (nested depth)) t

  -- `fsm.execute(t)`: see `Job.Machine.Step` for the depth
  unfoldable pub fire : Triggers → Exec (Sys I J) FsmStatus
  unfolding nested
  fire t = nested 2 t

  -- Job::unloadJob
  unfoldable pub unload_job : Bool → Exec (Sys I J) Bool
  unload_job force s =
      if same_state s.job.state States.unloaded
      then (ok false, s)
      else if s.job.unload_requested
      then (ok false, s)
      else (do
        on_job (λ j. record j { unload_requested = true })
        off ← is_disabled p
        if off && not force
            then pure false
            else (do fire Triggers.stop_requested; fire Triggers.unload_requested; pure true))
          s

  -- the callback of Job::startJob
  unfoldable pub on_process_event : WaitStatus → Exec (Sys I J) Unit
  on_process_event (WaitStatus.stopped signum) = pure tt
  on_process_event status = reap_child_process p status >> (fire Triggers.process_exited >> pure tt)

  -- the callback of Job::startAfterThrottleInterval
  unfoldable pub on_restart_timer : Exec (Sys I J) Unit
  on_restart_timer = do
    on_job (λ j. record j { timer_id = none })
    fire Triggers.start_requested
    pure tt

  -- the callback of Job::schedulePeriodicJob
  unfoldable pub on_periodic_timer : Exec (Sys I J) Unit
  on_periodic_timer = do on_job (λ j. record j { timer_id = none }); start_job p

  -- the block `if (pid) { … }` of Job::forceUnloadJob
  unfoldable pub kill_now : Exec (Sys I J) Unit
  kill_now = do
    pid ← gets (λ s. s.job.pid)
    if pid == pos 0 then pure tt else (do
      send p pid sigkill
      call (Call.waitpid pid) (λ t. p.os.waitpid_fails t pid)
      kill_process_group p
      on_events (delete_process kernel pid)
      on_job (λ j. record j { pid = pos 0; pgid = minus_one }))

  -- Job::forceUnloadJob
  unfoldable pub force_unload_job : Exec (Sys I J) Unit
  force_unload_job =
      noexcept (kill_now >> (cancel_any_timer p >> modify (put_state States.unloaded)))

-- What can happen to a job. Between two of these the other parts of the program change what the
-- job shares with them.
pub data Happening (I J : Type 0) : Type 0 where
  bootstrapped restart_due periodic_due force_unloaded : Happening I J
  unloaded : Bool → Happening I J
  process_event : WaitStatus → Happening I J
  shared_changed : EventManager I → StateFile J → Trace → Happening I J

module _ {I J : Type 0} (p : Platform I J) where
  -- an exception goes to the caller; the job stays as the step left it
  unfoldable pub react : Happening I J → Sys I J → Sys I J
  react bootstrapped s = (fire p Triggers.bootstrap s).1
  react restart_due s = (on_restart_timer p s).1
  react periodic_due s = (on_periodic_timer p s).1
  react force_unloaded s = (force_unload_job p s).1
  react (unloaded force) s = (unload_job p force s).1
  react (process_event status) s = (on_process_event p status s).1
  react (shared_changed e f t) s = record s { events = e; state_file = f; trace = t }

  unfoldable pub live : List (Happening I J) → Sys I J → Sys I J
  unfolding react
  live [] s = s
  live (h ∷ hs) s = live hs (react h s)
