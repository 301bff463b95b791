-- ===== src/Job/Uncancelled.antt =====
-- src/job.cc: a waiting job whose timer cannot be cancelled, as with `ignoreTimer` of src/event.h.
use relaunchd.Prelude.{ℕ, ◌≡◌, refl, Bool, true, false, not, ◌||◌, some, arith}
use relaunchd.Prelude.Int.{pos}
use relaunchd.Prelude.Exec.{ok, err, system_error, terminated}
use relaunchd.Fsm.{FsmStatus}
use relaunchd.Job.{Sys, Platform, States, Triggers, is_disabled}
use relaunchd.Job.Timer.{cancel_any_timer}
use relaunchd.Job.Machine.{fire, unload_job, kill_now, force_unload_job}
use relaunchd.Job.Machine.Step.{step, fire-step}
use relaunchd.Job.Lifecycle.{is_disabled-flag}

module _ {I J : Type 0} (p : Platform I J) where
  cancel_throws :
      (id : ℕ) (s : Sys I J)
      → s.job.timer_id ≡ some id
      → (p.kernel.ignore_timer id s.events.impl).0 ≡ err system_error
      → ((cancel_any_timer p s).0 ≡ err system_error) × ((cancel_any_timer p s).1.job ≡ s.job)
  unfolding cancel_any_timer
  cancel_throws id s t h = ground arith

  unload_throws :
      (id : ℕ) (s : Sys I J)
      → s.job.state ≡ States.waiting
      → s.job.timer_id ≡ some id
      → (p.kernel.ignore_timer id s.events.impl).0 ≡ err system_error
      → let (r, t) = fire p Triggers.unload_requested s in (r ≡ err system_error) × (t.job ≡ s.job)
  unfolding step
  unload_throws id s w t h =
      rw (fire-step p Triggers.unload_requested s) (ground (arith, w, cancel_throws id s t h))

  stop_ignored :
      (s : Sys I J)
      → s.job.state ≡ States.waiting
      → fire p Triggers.stop_requested s ≡ (ok FsmStatus.no_matching_trigger, s)
  unfolding step
  stop_ignored s w = rw (fire-step p Triggers.stop_requested s, w) refl

  -- Where the kernel interface throws when a timer is to be ignored: a request to unload a waiting job,
  -- forced or while it is not disabled, throws too. The job stays in state Waiting with its timer,
  -- and is marked as asked to unload.
  pub unload_job-uncancelled :
      (id : ℕ) (s : Sys I J) (force off : Bool)
      → s.job.state ≡ States.waiting
      → s.job.timer_id ≡ some id
      → s.job.unload_requested ≡ false
      → (p.kernel.ignore_timer id s.events.impl).0 ≡ err system_error
      → is_disabled p s ≡ (ok off, s)
      → (not off || force) ≡ true
      → let (r, t) = unload_job p force s in
        (r ≡ err system_error) × (t.job ≡ record s.job { unload_requested = true })
  unfolding unload_job
  unload_job-uncancelled id s force off w t u h d f =
      let s' : Sys I J = record s { job = record s.job { unload_requested = true } } in
      ground (arith, is_disabled-flag p s off d, stop_ignored s' w, unload_throws id s' w t h)

  -- Where the kernel interface throws when a timer is to be ignored: unloading a waiting job without
  -- a process by force terminates the program.
  pub force_unload_job-uncancelled :
      (id : ℕ) (s : Sys I J)
      → s.job.pid ≡ pos 0
      → s.job.timer_id ≡ some id
      → (p.kernel.ignore_timer id s.events.impl).0 ≡ err system_error
      → (force_unload_job p s).0 ≡ err terminated
  unfolding force_unload_job kill_now
  force_unload_job-uncancelled id s n t h = ground (arith, cancel_throws id s t h)
