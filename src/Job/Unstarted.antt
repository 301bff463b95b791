-- ===== src/Job/Unstarted.antt =====
-- src/job.cc: a job whose program could not be run.
use relaunchd.Prelude.{◌≡◌, refl, ℕ, suc, Bool, true, false, some, ◌∷◌, arith, inr}
use relaunchd.Prelude.Int.{pos}
use relaunchd.Prelude.Exec.{ok}
use relaunchd.ExecStatus.{read_status, is_success}
use relaunchd.Fsm.{FsmStatus}
use relaunchd.Os.{Call, Trace}
use relaunchd.Job.{Sys, Platform, States, Triggers, is_disabled}
use relaunchd.Job.Process.{
  ExecutionContext, sigkill, run, parent, start_job, execution_context, kill_job,
}
use relaunchd.Job.Machine.{fire, unload_job}
use relaunchd.Job.Machine.Final.{unload_job-Refuses}
use relaunchd.Job.Machine.Step.{step, fire-step}
use relaunchd.Job.Lifecycle.{is_disabled-flag, is_disabled_at, unload_running}

module _ {I J : Type 0} (p : Platform I J) where
  -- the system calls up to the message of the child
  abbrev reported : Trace → Trace
  reported t = Call.clock_gettime ∷ Call.fork ∷ Call.pipe ∷ Call.clock_gettime ∷ t

  -- the child is killed and reaped, and its identifier forgotten
  abbrev unstarted : Sys I J → ℕ → Sys I J
  unstarted s child = record s {
    job = record s.job {
      started_at = some (p.os.clock (Call.fork ∷ Call.pipe ∷ Call.clock_gettime ∷ s.trace));
      pid = pos 0;
      state = States.running;
    };
    trace = Call.waitpid (pos child) ∷ Call.kill (pos child) sigkill ∷ reported s.trace;
  }

  -- the child reports that it could not run the program
  pub record FailsToRun (s : Sys I J) (child : ℕ) : Type 0 where
    pub piped : p.os.pipe_succeeds (Call.clock_gettime ∷ s.trace) ≡ true
    pub forked : p.os.fork_answer (Call.pipe ∷ Call.clock_gettime ∷ s.trace) ≡ pos (suc child)
    pub failed : is_success (read_status (p.os.pipe_read (reported s.trace))).error_code ≡ false

  start_unstarted :
      (s : Sys I J) (child : ℕ) (ctx : ExecutionContext)
      → s.job.state ≡ States.loaded
      → execution_context p.os s.job.manifest ≡ ok ctx
      → FailsToRun s child
      → fire p Triggers.start_requested s ≡ (ok FsmStatus.success, unstarted s (suc child))
  unfolding step start_job run parent
  start_unstarted s child ctx l u f =
      rw (fire-step p Triggers.start_requested s)
        (simp l (ground (arith, u, f.piped, f.forked, f.failed)))

  stop_unstarted :
      (s : Sys I J)
      → s.job.state ≡ States.running
      → s.job.pid ≡ pos 0
      → fire p Triggers.stop_requested s ≡ (ok FsmStatus.success, s)
  unfolding step kill_job
  stop_unstarted s r z = rw (fire-step p Triggers.stop_requested s) (simp r (ground (arith, z)))

  unload_unstarted :
      (s : Sys I J) (force : Bool)
      → s.job.state ≡ States.running
      → s.job.pid ≡ pos 0
      → s.job.unload_requested ≡ false
      → is_disabled p s ≡ (ok false, s)
      → unload_job p force s
        ≡ (ok true, record s { job = record s.job { unload_requested = true } })
  unfolding unload_job
  unload_unstarted s force r z n d =
      let s' : Sys I J = record s { job = record s.job { unload_requested = true } } in
      ground (arith, is_disabled-flag p s false d, stop_unstarted s' r z, unload_running p s' r)

  -- If the user and the group that the manifest names have entries, the pipe and the child are made,
  -- and the child reports that it could not run the program, a start request still takes a loaded job to
  -- state Running, with no process and nobody waiting for one. A request to unload it, forced or not,
  -- while it is not disabled, then returns true, but no signal is sent and the job stays in state
  -- Running; every later request returns false and changes nothing.
  pub failed_start-unload_job :
      (s : Sys I J) (child : ℕ) (ctx : ExecutionContext) (force again : Bool)
      → s.job.state ≡ States.loaded
      → s.job.unload_requested ≡ false
      → execution_context p.os s.job.manifest ≡ ok ctx
      → FailsToRun s child
      → is_disabled p s ≡ (ok false, s)
      → let t = (fire p Triggers.start_requested s).1 in
        let (answer, u) = unload_job p force t in
        (t.job.state ≡ States.running)
        × (t.job.pid ≡ pos 0)
        × (t.events ≡ s.events)
        × (answer ≡ ok true)
        × (u ≡ record t { job = record t.job { unload_requested = true } })
        × (unload_job p again u ≡ (ok false, u))
  failed_start-unload_job s child ctx force again l n us f d =
      let t : Sys I J = unstarted s (suc child) in
      let started = start_unstarted s child ctx l us f in
      let enabled = is_disabled_at p s t false refl refl d in
      let unloaded = unload_unstarted t force refl refl n enabled in
      let u : Sys I J = record t { job = record t.job { unload_requested = true } } in
      simp (started, unloaded)
        (refl, refl, refl, refl, refl, unload_job-Refuses p again u (inr refl))
