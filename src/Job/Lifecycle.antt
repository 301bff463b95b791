-- ===== src/Job/Lifecycle.antt =====
-- src/job.cc: how a running job is unloaded, and what goes wrong when `fork` fails or when the clock
-- moves on between two guards.
use relaunchd.Prelude.{
  ℕ, zero, suc, ◌≡◌, ◌≢◌, refl, Bool, true, false, not, ◌||◌, some, arith, ◌∷◌, Bool-cases, inl,
  inr,
}
use relaunchd.Prelude.Assoc.{is_some}
use relaunchd.Prelude.Int.{ℤ, pos, negate, int_eq, int_beq, int_beq_iff, minus_one}
use relaunchd.Prelude.Exec.{ok}
use relaunchd.Fsm.{FsmStatus}
use relaunchd.Event.{WaitStatus, submit_ipc_callback}
use relaunchd.Os.{Call}
use relaunchd.Job.{Sys, Platform, States, Triggers, is_disabled, should_throttle}
use relaunchd.Job.Frame.{reap_child_process-Frame}
use relaunchd.Job.Process.{
  ExecutionContext, sigkill, sigterm, run, start_job, execution_context, kill_loop,
  kill_process_group, kill_job, record_status, reap_child_process,
}
use relaunchd.Job.Machine.{fire, unload_job, on_process_event}
use relaunchd.Job.Machine.Step.{step, fire-step}

module _ {I J : Type 0} (p : Platform I J) where
  pub is_disabled-flag :
      (s : Sys I J) (off : Bool)
      → is_disabled p s ≡ (ok off, s)
      → let s' = record s { job = record s.job { unload_requested = true } } in
        is_disabled p s' ≡ (ok off, s')
  unfolding is_disabled
  is_disabled-flag s off h = ground arith

  stop_running :
      (s : Sys I J)
      → s.job.state ≡ States.running
      → s.job.pid ≢ pos 0
      → fire p Triggers.stop_requested s
        ≡ (ok FsmStatus.success, record s { trace = Call.kill s.job.pid sigterm ∷ s.trace })
  unfolding step kill_job
  stop_running s r n =
      rw (fire-step p Triggers.stop_requested s, r)
        (elim (Bool-cases (int_beq s.job.pid (pos 0))) [
          | inl e ↦ absurd (n ((int_beq_iff s.job.pid (pos 0)).0 e))
          | inr e ↦ ground arith
        ])

  pub unload_running :
      (s : Sys I J)
      → s.job.state ≡ States.running
      → fire p Triggers.unload_requested s ≡ (ok FsmStatus.no_matching_trigger, s)
  unfolding step
  unload_running s r = rw (fire-step p Triggers.unload_requested s, r) refl

  pub unload_job-running :
      (s : Sys I J) (force off : Bool)
      → s.job.state ≡ States.running
      → s.job.unload_requested ≡ false
      → s.job.pid ≢ pos 0
      → is_disabled p s ≡ (ok off, s)
      → (not off || force) ≡ true
      → unload_job p force s ≡ (
        ok true,
        record s {
          job = record s.job { unload_requested = true };
          trace = Call.kill s.job.pid sigterm ∷ s.trace;
        },
      )
  unfolding unload_job
  unload_job-running s force off r u n d f =
      let s' : Sys I J = record s { job = record s.job { unload_requested = true } } in
      let t : Sys I J = record s' { trace = Call.kill s.job.pid sigterm ∷ s.trace } in
      let h1 = stop_running s' r n in
      let h2 = unload_running t r in ground (arith, is_disabled-flag s off d, h1, h2)

  -- the loop over the process group changes the trace alone
  kill_loop-events :
      (fuel : ℕ) (pgid : ℤ) (s : Sys I J)
      → ((kill_loop p fuel pgid s).1.events ≡ s.events) × ((kill_loop p fuel pgid s).1.job ≡ s.job)
  unfolding kill_loop
  kill_loop-events zero pgid s = (refl, refl)
  kill_loop-events (suc fuel) pgid s = ground (
    arith,
    kill_loop-events fuel pgid
        (record s { trace = Call.waitpid (negate pgid) ∷ Call.killpg pgid sigkill ∷ s.trace }),
  )

  -- what the reaping of a process leaves
  pub record Reaped (s t : Sys I J) : Type 0 where
    pub pid : t.job.pid ≡ pos 0
    pub pgid : t.job.pgid ≡ s.job.pgid
    pub started_at : t.job.started_at ≡ s.job.started_at
    pub events : t.events ≡ s.events

  group-Reaped :
      (s : Sys I J)
      → ((kill_process_group p s).1.events ≡ s.events) × ((kill_process_group p s).1.job ≡ s.job)
  unfolding kill_process_group
  group-Reaped s = ground (arith, kill_loop-events p.os.group_bound s.job.pgid s)

  pub reap-Reaped :
      (status : WaitStatus) (s : Sys I J)
      → (reap_child_process p status s).0 ≡ ok tt
      → Reaped s (reap_child_process p status s).1
  unfolding reap_child_process record_status
  reap-Reaped (WaitStatus.exited code) s h =
      let (e, j) =
        group-Reaped
          (record s { job = record s.job { last_exit_status = pos code; pid = pos 0 } }) in
      ground (arith, e, j)
  reap-Reaped (WaitStatus.signaled signum) s h =
      let (e, j) = group-Reaped (record s {
        job = record s.job { last_exit_status = minus_one; term_signal = signum; pid = pos 0 };
      }) in
      ground (arith, e, j)
  reap-Reaped _ s h = cc

  pub reap_stopped :
      (n : ℕ) (s : Sys I J) → (reap_child_process p (WaitStatus.stopped n) s).0 ≢ ok tt
  unfolding reap_child_process record_status
  reap_stopped n s h = cc

  -- a process whose job is to be unloaded is gone
  exit_requested :
      (s : Sys I J)
      → s.job.state ≡ States.running
      → s.job.unload_requested ≡ true
      → is_some s.job.started_at ≡ true
      → let (r, t) = fire p Triggers.process_exited s in
        (r ≡ ok FsmStatus.success)
        × (t.job ≡ record s.job { state = States.unloaded })
        × (t.events
            ≡ (submit_ipc_callback p.kernel "delete_job" s.job.manifest.label.value s.events).1)
  unfolding step should_throttle submit_ipc_callback
  exit_requested s r u st = rw (fire-step p Triggers.process_exited s) (simp r (ground arith))

  -- When the process of a running job that is to be unloaded ends, and the reaping of it returns,
  -- the job is unloaded: it has no process, its state is Unloaded, and the
  -- request to delete it, a "delete_job" event with its label, joins the queue of events.
  pub on_process_event-unloads :
      (status : WaitStatus) (s : Sys I J)
      → (reap_child_process p status s).0 ≡ ok tt
      → s.job.state ≡ States.running
      → s.job.unload_requested ≡ true
      → is_some s.job.started_at ≡ true
      → let (r, t) = on_process_event p status s in
        (r ≡ ok tt)
        × (t.job.state ≡ States.unloaded)
        × (t.job.pid ≡ pos 0)
        × (t.events
            ≡ (submit_ipc_callback p.kernel "delete_job" s.job.manifest.label.value s.events).1)
  unfolding on_process_event
  on_process_event-unloads (WaitStatus.stopped n) s ok' r u st = absurd (reap_stopped n s ok')
  on_process_event-unloads status s ok' r u st =
      let t = (reap_child_process p status s).1 in
      let f = reap_child_process-Frame p status s in
      let b = reap-Reaped status s ok' in
      let (r1, j, e) =
        exit_requested t (ground (arith, f.state)) (ground (arith, f.unload_requested))
          (ground (arith, b.started_at)) in
      ground (arith, ok', r1, j, e, b.pid, b.events, f.manifest)

  pub is_disabled_at :
      (s t : Sys I J) (off : Bool)
      → t.job.manifest ≡ s.job.manifest
      → t.state_file ≡ s.state_file
      → is_disabled p s ≡ (ok off, s)
      → is_disabled p t ≡ (ok off, t)
  unfolding is_disabled
  is_disabled_at s t off m f h = ground (arith, m, f, h)

  abbrev after_failed_fork : Sys I J → Sys I J
  after_failed_fork s = record s {
    job = record s.job {
      started_at = some (p.os.clock s.trace);
      pid = minus_one;
      state = States.running;
    };
    trace = Call.fork ∷ Call.pipe ∷ Call.clock_gettime ∷ s.trace;
  }

  start_failed :
      (s : Sys I J) (ctx : ExecutionContext)
      → s.job.state ≡ States.loaded
      → p.os.fork_answer (Call.pipe ∷ Call.clock_gettime ∷ s.trace) ≡ minus_one
      → p.os.pipe_succeeds (Call.clock_gettime ∷ s.trace) ≡ true
      → execution_context p.os s.job.manifest ≡ ok ctx
      → fire p Triggers.start_requested s ≡ (ok FsmStatus.success, after_failed_fork s)
  unfolding step start_job run
  start_failed s ctx l f pi us = rw (fire-step p Triggers.start_requested s) (simp l (ground arith))

  -- If the user and the group that the manifest names have entries, the pipe is made and `fork`
  -- fails, a start request still takes a loaded job to state Running, with process
  -- identifier -1; the next request to unload it, forced or not, while it is not disabled, then
  -- sends SIGTERM to process -1, which is every process, and returns true.
  pub failed_fork-unload_job :
      (s : Sys I J) (ctx : ExecutionContext) (force : Bool)
      → s.job.state ≡ States.loaded
      → s.job.unload_requested ≡ false
      → p.os.fork_answer (Call.pipe ∷ Call.clock_gettime ∷ s.trace) ≡ minus_one
      → p.os.pipe_succeeds (Call.clock_gettime ∷ s.trace) ≡ true
      → execution_context p.os s.job.manifest ≡ ok ctx
      → is_disabled p s ≡ (ok false, s)
      → let t = (fire p Triggers.start_requested s).1 in
        let (answer, u) = unload_job p force t in
        (t.job.state ≡ States.running)
        × (answer ≡ ok true)
        × (u.job.state ≡ States.running)
        × (u.trace ≡ Call.kill minus_one sigterm ∷ t.trace)
  failed_fork-unload_job s ctx force l u f pi us d =
      let t : Sys I J = after_failed_fork s in
      let started : fire p Triggers.start_requested s ≡ (ok FsmStatus.success, t) =
        start_failed s ctx l f pi us in
      let off = is_disabled_at s t false refl refl d in
      let unloaded = unload_job-running t force false refl u (λ h. cc) off refl in
      simp (started, unloaded) (refl, refl, refl, refl)
