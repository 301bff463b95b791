-- ===== src/Job/Reading.antt =====
-- No method of src/job.cc writes the state file.
use relaunchd.Prelude.{
  ℕ, zero, suc, Bool, true, false, not, ◌&&◌, ◌≡◌, refl, none, arith, ◌∷◌, Bool-cases, inl, inr,
}
use relaunchd.Prelude.Int.{ℤ, pos, minus_one, negate}
use relaunchd.Prelude.Exec.{Result, ok, err, ◌>>=◌}
use relaunchd.Event.{WaitStatus}
use relaunchd.Os.{Call}
use relaunchd.Job.{Sys, Platform, States, Triggers, is_disabled, should_throttle}
use relaunchd.Job.Process.{
  run, parent, start_job, kill_job, sigkill, sigterm, kill_loop, kill_process_group, record_status,
  reap_child_process,
}
use relaunchd.Job.Timer.{start_after_throttle_interval, schedule_periodic_job, cancel_any_timer}
use relaunchd.Job.Frame.{forked, starting}
use relaunchd.Job.Machine.{
  fire, unload_job, on_process_event, on_restart_timer, on_periodic_timer, kill_now,
  force_unload_job,
}
use relaunchd.Job.Machine.Step.{
  step, fire-step, is_disabled_result, should_throttle_result, tick, on_throttled, on_kept_alive,
}

abbrev Unwritten : {I J : Type 0} → Sys I J → Sys I J → Type 0
Unwritten s t = t.state_file ≡ s.state_file

module _ {I J : Type 0} (p : Platform I J) where
  kill_loop-Unwritten :
      (fuel : ℕ) (pgid : ℤ) (s : Sys I J) → Unwritten s (kill_loop p fuel pgid s).1
  unfolding kill_loop
  kill_loop-Unwritten zero pgid s = refl
  kill_loop-Unwritten (suc fuel) pgid s = ground (
    arith,
    kill_loop-Unwritten fuel pgid
        (record s { trace = Call.waitpid (negate pgid) ∷ Call.killpg pgid sigkill ∷ s.trace }),
  )

  kill_process_group-Unwritten : (s : Sys I J) → Unwritten s (kill_process_group p s).1
  unfolding kill_process_group
  kill_process_group-Unwritten s = ground (arith, kill_loop-Unwritten p.os.group_bound s.job.pgid s)

  parent-Unwritten : (pid : ℤ) (s : Sys I J) → Unwritten s (parent p pid s).1
  unfolding parent
  parent-Unwritten pid s = ground arith

  run-Unwritten : (s : Sys I J) → Unwritten s (run p s).1
  unfolding run forked
  run-Unwritten s =
      ground (arith, parent-Unwritten (p.os.fork_answer (Call.pipe ∷ s.trace)) (forked p s))

  start_job-Unwritten : (s : Sys I J) → Unwritten s (start_job p s).1
  unfolding start_job starting
  start_job-Unwritten s = ground (arith, run-Unwritten (starting p s))

  reap_child_process-Unwritten :
      (status : WaitStatus) (s : Sys I J) → Unwritten s (reap_child_process p status s).1
  unfolding reap_child_process record_status
  reap_child_process-Unwritten (WaitStatus.exited code) s = ground (
    arith,
    kill_process_group-Unwritten
        (record s { job = record s.job { last_exit_status = pos code; pid = pos 0 } }),
  )
  reap_child_process-Unwritten (WaitStatus.signaled signum) s = ground (
    arith,
    kill_process_group-Unwritten (record s {
      job = record s.job { last_exit_status = minus_one; term_signal = signum; pid = pos 0 };
    }),
  )
  reap_child_process-Unwritten _ s = ground arith

  pub kill_job-Unwritten : (signum : ℕ) (s : Sys I J) → Unwritten s (kill_job p signum s).1
  unfolding kill_job
  kill_job-Unwritten signum s = ground arith

  cancel_any_timer-Unwritten : (s : Sys I J) → Unwritten s (cancel_any_timer p s).1
  unfolding cancel_any_timer
  cancel_any_timer-Unwritten s = ground arith

  bootstrap-Unwritten :
      (s : Sys I J) (r : Result Bool)
      → is_disabled p s ≡ (r, s)
      → Unwritten s (step p States.loaded Triggers.bootstrap s).1
  unfolding step schedule_periodic_job
  bootstrap-Unwritten s (err x) e = rw e refl
  bootstrap-Unwritten s (ok true) e = rw e refl
  bootstrap-Unwritten s (ok false) e = rw e (ground (arith, start_job-Unwritten s))

  throttled-Unwritten : (s : Sys I J) (b : Bool) → Unwritten s (on_throttled p b s).1
  unfolding start_after_throttle_interval
  throttled-Unwritten s b = ground arith

  second-Unwritten :
      (s : Sys I J) (r : Result Bool)
      → should_throttle p s ≡ (r, tick p s)
      → Unwritten s ((should_throttle p >>= on_throttled p) s).1
  second-Unwritten s (err x) t = rw t refl
  second-Unwritten s (ok b) t = rw t (throttled-Unwritten (tick p s) b)

  kept_alive-Unwritten : (s : Sys I J) (b : Bool) → Unwritten s (on_kept_alive p b s).1
  kept_alive-Unwritten s b =
      let (r, t) = should_throttle_result p s in
      let second : Unwritten s ((should_throttle p >>= on_throttled p) s).1 =
        second-Unwritten s r t in
      elim (Bool-cases (not b && not s.job.unload_requested)) [
        | inl start ↦ rw start (ground (arith, start_job-Unwritten s))
        | inr other ↦ rw other second
      ]

  exit-Unwritten :
      (s : Sys I J) (r : Result Bool)
      → should_throttle p s ≡ (r, tick p s)
      → Unwritten s ((should_throttle p >>= on_kept_alive p) s).1
  exit-Unwritten s (err x) t = rw t refl
  exit-Unwritten s (ok b) t = rw t (kept_alive-Unwritten (tick p s) b)

  step-Unwritten : (st : States) (t : Triggers) (s : Sys I J) → Unwritten s (step p st t s).1
  unfolding step
  step-Unwritten States.loaded Triggers.bootstrap s =
      let (r, d) = is_disabled_result p s in bootstrap-Unwritten s r d
  step-Unwritten States.waiting Triggers.start_requested s =
      ground (arith, cancel_any_timer-Unwritten s, start_job-Unwritten (cancel_any_timer p s).1)
  step-Unwritten States.waiting Triggers.unload_requested s =
      ground (arith, cancel_any_timer-Unwritten s)
  step-Unwritten States.running Triggers.process_exited s =
      elim (Bool-cases s.job.manifest.keep_alive.always) [
        | inl keep ↦ let (r, t) = should_throttle_result p s in simp keep (exit-Unwritten s r t)
        | inr keep ↦ simp keep (ground arith)
      ]
  step-Unwritten States.running Triggers.stop_requested s =
      ground (arith, kill_job-Unwritten sigterm s)
  step-Unwritten States.loaded Triggers.start_requested s = ground (arith, start_job-Unwritten s)
  step-Unwritten _ _ s = ground arith

  pub fire-Unwritten : (t : Triggers) (s : Sys I J) → Unwritten s (fire p t s).1
  fire-Unwritten t s = rw (fire-step p t s) (step-Unwritten s.job.state t s)

  pub unload_job-Unwritten : (force : Bool) (s : Sys I J) → Unwritten s (unload_job p force s).1
  unfolding unload_job
  unload_job-Unwritten force s =
      let s' : Sys I J = record s { job = record s.job { unload_requested = true } } in
      let (r, d) = is_disabled_result p s' in
      ground (
        arith,
        d,
        fire-Unwritten Triggers.stop_requested s',
        fire-Unwritten Triggers.unload_requested (fire p Triggers.stop_requested s').1,
      )

  pub process_event-Unwritten :
      (status : WaitStatus) (s : Sys I J) → Unwritten s (on_process_event p status s).1
  unfolding on_process_event
  process_event-Unwritten (WaitStatus.stopped n) s = refl
  process_event-Unwritten status s = ground (
    arith,
    reap_child_process-Unwritten status s,
    fire-Unwritten Triggers.process_exited (reap_child_process p status s).1,
  )

  pub restart-Unwritten : (s : Sys I J) → Unwritten s (on_restart_timer p s).1
  unfolding on_restart_timer
  restart-Unwritten s = ground (
    arith,
    fire-Unwritten Triggers.start_requested (record s { job = record s.job { timer_id = none } }),
  )

  pub periodic-Unwritten : (s : Sys I J) → Unwritten s (on_periodic_timer p s).1
  unfolding on_periodic_timer
  periodic-Unwritten s =
      ground (arith, start_job-Unwritten (record s { job = record s.job { timer_id = none } }))

  kill_now-Unwritten : (s : Sys I J) → Unwritten s (kill_now p s).1
  unfolding kill_now
  kill_now-Unwritten s =
      let killed : Sys I J = record s {
        trace = Call.waitpid s.job.pid ∷ Call.kill s.job.pid sigkill ∷ s.trace;
      } in
      ground (arith, kill_process_group-Unwritten killed)

  pub force_unload_job-Unwritten : (s : Sys I J) → Unwritten s (force_unload_job p s).1
  unfolding force_unload_job
  force_unload_job-Unwritten s =
      ground (arith, kill_now-Unwritten s, cancel_any_timer-Unwritten (kill_now p s).1)
