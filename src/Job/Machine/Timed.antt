-- ===== src/Job/Machine/Timed.antt =====
-- The timer of a job in src/job.cc: only a waiting job has one, whatever happens to the job.
use relaunchd.Prelude.{
  String, [], Bool, true, false, not, ◌&&◌, ◌≡◌, refl, Option, none, arith, Bool-cases, ◌⊎◌, inl,
  inr, ◌∷◌, List,
}
use relaunchd.Prelude.Assoc.{is_some}
use relaunchd.Prelude.Exec.{Result, ok, err, ◌>>=◌}
use relaunchd.Event.{WaitStatus, EventManager}
use relaunchd.StateFile.{StateFile}
use relaunchd.Os.{Trace, Call}
use relaunchd.Manifest.{Manifest}
use relaunchd.Job.{Job, Sys, Platform, States, Triggers, new_job, is_disabled, should_throttle}
use relaunchd.Job.Frame.{
  kill_process_group-job, SameFrame, start_job-Frame, reap_child_process-Frame, kill_job-job,
}
use relaunchd.Job.Process.{sigkill, sigterm, reap_child_process}
use relaunchd.Job.Timer.{start_after_throttle_interval, schedule_periodic_job, cancel_any_timer}
use relaunchd.Job.Machine.{
  fire, unload_job, on_process_event, on_restart_timer, on_periodic_timer, kill_now, Happening,
  react, live, force_unload_job,
}
use relaunchd.Job.Machine.Step.{
  step, fire-step, is_disabled_result, should_throttle_result, tick, on_throttled, on_kept_alive,
}

-- only a waiting job has a timer
pub record IsTimed (j : Job) : Type 0 where
  pub waits : is_some j.timer_id ≡ true → j.state ≡ States.waiting

module _ {I J : Type 0} (p : Platform I J) where
  cancel_any_timer-state : (s : Sys I J) → (cancel_any_timer p s).1.job.state ≡ s.job.state
  unfolding cancel_any_timer
  cancel_any_timer-state s = ground arith

  cancel_any_timer-timer :
      (s : Sys I J)
      → (cancel_any_timer p s).0 ≡ ok tt
      → (cancel_any_timer p s).1.job.timer_id ≡ none
  unfolding cancel_any_timer
  cancel_any_timer-timer s h = ground arith

  cancel_any_timer_either :
      (s : Sys I J)
      → ((cancel_any_timer p s).1.job.timer_id ≡ none)
        ⊎ ((cancel_any_timer p s).1.job.timer_id ≡ s.job.timer_id)
  unfolding cancel_any_timer
  cancel_any_timer_either s = ground arith

  bootstrap-IsTimed :
      (s : Sys I J) (r : Result Bool)
      → is_disabled p s ≡ (r, s)
      → IsTimed s.job
      → s.job.state ≡ States.loaded
      → IsTimed (step p States.loaded Triggers.bootstrap s).1.job
  unfolding step schedule_periodic_job
  bootstrap-IsTimed s (err x) e h l = rw e h
  bootstrap-IsTimed s (ok true) e h l = rw e h
  bootstrap-IsTimed s (ok false) e h l = rw e (ground (arith, start_job-Frame p s))

  -- a restart after the exit of a job with KeepAlive, or none
  throttled-IsTimed :
      (s : Sys I J) (b : Bool)
      → s.job.state ≡ States.running
      → IsTimed s.job
      → IsTimed (on_throttled p b s).1.job
  unfolding start_after_throttle_interval
  throttled-IsTimed s b e h = ground arith

  second-IsTimed :
      (s : Sys I J) (r : Result Bool)
      → should_throttle p s ≡ (r, tick p s)
      → s.job.state ≡ States.running
      → IsTimed s.job
      → IsTimed ((should_throttle p >>= on_throttled p) s).1.job
  second-IsTimed s (err x) t e h = rw t h
  second-IsTimed s (ok b) t e h = rw t (throttled-IsTimed (tick p s) b e h)

  kept_alive-IsTimed :
      (s : Sys I J) (b : Bool)
      → s.job.state ≡ States.running
      → IsTimed s.job
      → IsTimed (on_kept_alive p b s).1.job
  kept_alive-IsTimed s b e h =
      let (r, t) = should_throttle_result p s in
      let second : IsTimed ((should_throttle p >>= on_throttled p) s).1.job =
        second-IsTimed s r t e h in
      elim (Bool-cases (not b && not s.job.unload_requested)) [
        | inl start ↦ rw start (ground (arith, start_job-Frame p s))
        | inr other ↦ rw other second
      ]

  exit-IsTimed :
      (s : Sys I J) (r : Result Bool)
      → should_throttle p s ≡ (r, tick p s)
      → s.job.state ≡ States.running
      → IsTimed s.job
      → IsTimed ((should_throttle p >>= on_kept_alive p) s).1.job
  exit-IsTimed s (err x) t e h = rw t h
  exit-IsTimed s (ok b) t e h = rw t (kept_alive-IsTimed (tick p s) b e h)

  step-IsTimed :
      (st : States) (t : Triggers) (s : Sys I J)
      → s.job.state ≡ st
      → IsTimed s.job
      → IsTimed (step p st t s).1.job
  unfolding step
  step-IsTimed States.loaded Triggers.bootstrap s e h =
      let (r, d) = is_disabled_result p s in bootstrap-IsTimed s r d h e
  step-IsTimed States.waiting Triggers.start_requested s e h = ground (
    arith,
    cancel_any_timer-state s,
    cancel_any_timer-timer s,
    start_job-Frame p (cancel_any_timer p s).1,
  )
  step-IsTimed States.waiting Triggers.unload_requested s e h =
      ground (arith, cancel_any_timer-state s, cancel_any_timer-timer s)
  step-IsTimed States.running Triggers.process_exited s e h =
      elim (Bool-cases s.job.manifest.keep_alive.always) [
        | inl keep ↦ let (r, t) = should_throttle_result p s in simp keep (exit-IsTimed s r t e h)
        | inr keep ↦ simp keep (ground arith)
      ]
  step-IsTimed States.running Triggers.stop_requested s e h =
      ground (arith, kill_job-job p sigterm s)
  step-IsTimed States.loaded Triggers.start_requested s e h = ground (arith, start_job-Frame p s)
  step-IsTimed States.exited Triggers.unload_requested s e h = ground arith
  step-IsTimed States.unloaded Triggers.unload_requested s e h = ground arith
  step-IsTimed _ _ s e h = ground arith

  fire-IsTimed : (t : Triggers) (s : Sys I J) → IsTimed s.job → IsTimed (fire p t s).1.job
  fire-IsTimed t s h = rw (fire-step p t s) (step-IsTimed s.job.state t s refl h)

  unload-IsTimed :
      (force : Bool) (s : Sys I J) → IsTimed s.job → IsTimed (unload_job p force s).1.job
  unfolding unload_job
  unload-IsTimed force s h =
      let s' : Sys I J = record s { job = record s.job { unload_requested = true } } in
      let (r, d) = is_disabled_result p s' in
      let stopped = (fire p Triggers.stop_requested s').1 in
      let h' : IsTimed s'.job = record { waits = h.waits } in
      let h1 : IsTimed stopped.job = fire-IsTimed Triggers.stop_requested s' h' in
      ground (arith, d, h1.waits, (fire-IsTimed Triggers.unload_requested stopped h1).waits)

  process_event-IsTimed :
      (status : WaitStatus) (s : Sys I J)
      → IsTimed s.job
      → IsTimed (on_process_event p status s).1.job
  unfolding on_process_event
  process_event-IsTimed (WaitStatus.stopped n) s h = h
  process_event-IsTimed status s h =
      let t = (reap_child_process p status s).1 in
      let h' : IsTimed t.job = ground (arith, reap_child_process-Frame p status s) in
      ground (arith, (fire-IsTimed Triggers.process_exited t h').waits)

  restart-IsTimed : (s : Sys I J) → IsTimed s.job → IsTimed (on_restart_timer p s).1.job
  unfolding on_restart_timer
  restart-IsTimed s h =
      let t : Sys I J = record s { job = record s.job { timer_id = none } } in
      ground (arith, (fire-IsTimed Triggers.start_requested t (record { waits = λ x. cc })).waits)

  periodic-IsTimed : (s : Sys I J) → IsTimed s.job → IsTimed (on_periodic_timer p s).1.job
  unfolding on_periodic_timer
  periodic-IsTimed s h =
      ground (arith, start_job-Frame p (record s { job = record s.job { timer_id = none } }))

  pub kill_now-Frame : (s : Sys I J) → SameFrame s.job (kill_now p s).1.job
  unfolding kill_now
  kill_now-Frame s =
      let killed : Sys I J = record s {
        trace = Call.waitpid s.job.pid ∷ Call.kill s.job.pid sigkill ∷ s.trace;
      } in
      ground (arith, kill_process_group-job p killed)

  force_unload-IsTimed : (s : Sys I J) → IsTimed s.job → IsTimed (force_unload_job p s).1.job
  unfolding force_unload_job
  force_unload-IsTimed s h =
      let t = (kill_now p s).1 in
      ground (
        arith,
        kill_now-Frame s,
        cancel_any_timer-state t,
        cancel_any_timer-timer t,
        cancel_any_timer_either t,
      )

  pub react-IsTimed : (h : Happening I J) (s : Sys I J) → IsTimed s.job → IsTimed (react p h s).job
  unfolding react
  react-IsTimed Happening.bootstrapped s t = fire-IsTimed Triggers.bootstrap s t
  react-IsTimed Happening.restart_due s t = restart-IsTimed s t
  react-IsTimed Happening.periodic_due s t = periodic-IsTimed s t
  react-IsTimed Happening.force_unloaded s t = force_unload-IsTimed s t
  react-IsTimed (Happening.unloaded force) s t = unload-IsTimed force s t
  react-IsTimed (Happening.process_event status) s t = process_event-IsTimed status s t
  react-IsTimed (Happening.shared_changed e f tr) s t = t

  live-IsTimed_from :
      (hs : List (Happening I J)) (s : Sys I J) → IsTimed s.job → IsTimed (live p hs s).job
  unfolding live
  live-IsTimed_from [] s t = t
  live-IsTimed_from (h ∷ hs) s t = live-IsTimed_from hs (react p h s) (react-IsTimed h s t)

  -- Whatever happens to a new job, in whatever order (triggers, exits of its process, timers,
  -- unload requests, a forced unload, changes of the state it shares): it has a timer only while it
  -- is in state Waiting, exceptions included.
  pub live-IsTimed :
      (path : Option String) (m : Manifest) (e : EventManager I) (f : StateFile J) (t : Trace)
      (hs : List (Happening I J))
      → let j =
          (live p hs
            (record { job = new_job path m; events = e; state_file = f; trace = t })).job in
        (j.timer_id ≡ none) ⊎ (j.state ≡ States.waiting)
  unfolding new_job
  live-IsTimed path m e f t hs =
      let s : Sys I J = record { job = new_job path m; events = e; state_file = f; trace = t } in
      let timed = live-IsTimed_from hs s (record { waits = λ x. cc }) in ground (arith, timed.waits)
