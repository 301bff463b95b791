-- ===== src/Job/Frame.antt =====
-- What the steps of src/job.cc leave alone.
use relaunchd.Prelude.{ℕ, zero, suc, ◌≡◌, refl, some, arith, ◌∷◌}
use relaunchd.Prelude.Int.{ℤ, pos, minus_one, negate}
use relaunchd.Event.{WaitStatus}
use relaunchd.Os.{Call}
use relaunchd.Job.{Job, Sys, Platform}
use relaunchd.Job.Process.{
  run, parent, start_job, kill_job, sigkill, kill_loop, kill_process_group, record_status,
  reap_child_process,
}

-- `b` has what `a` has, but for the process of the job and its record
pub record SameFrame (a b : Job) : Type 0 where
  pub manifest : b.manifest ≡ a.manifest
  pub state : b.state ≡ a.state
  pub timer_id : b.timer_id ≡ a.timer_id
  pub unload_requested : b.unload_requested ≡ a.unload_requested

abbrev pub Frame : {I J : Type 0} → Sys I J → Sys I J → Type 0
Frame s t = SameFrame s.job t.job

module _ {I J : Type 0} (p : Platform I J) where
  kill_loop-job : (fuel : ℕ) (pgid : ℤ) (s : Sys I J) → (kill_loop p fuel pgid s).1.job ≡ s.job
  unfolding kill_loop
  kill_loop-job zero pgid s = refl
  kill_loop-job (suc fuel) pgid s = ground (
    arith,
    kill_loop-job fuel pgid
        (record s { trace = Call.waitpid (negate pgid) ∷ Call.killpg pgid sigkill ∷ s.trace }),
  )

  pub kill_process_group-job : (s : Sys I J) → (kill_process_group p s).1.job ≡ s.job
  unfolding kill_process_group
  kill_process_group-job s = ground (arith, kill_loop-job p.os.group_bound s.job.pgid s)

  parent-Frame : (pid : ℤ) (s : Sys I J) → Frame s (parent p pid s).1
  unfolding parent
  parent-Frame pid s = ground arith

  -- the state in which `run` calls `fork`, and the state after it
  unfoldable pub forked : Sys I J → Sys I J
  forked s = record s {
    job = record s.job { pid = p.os.fork_answer (Call.pipe ∷ s.trace) };
    trace = Call.fork ∷ Call.pipe ∷ s.trace;
  }

  run-Frame : (s : Sys I J) → Frame s (run p s).1
  unfolding run forked
  run-Frame s = ground (arith, parent-Frame (p.os.fork_answer (Call.pipe ∷ s.trace)) (forked s))

  -- the state in which `start_job` calls `run`
  unfoldable pub starting : Sys I J → Sys I J
  starting s = record s {
    job = record s.job { started_at = some (p.os.clock s.trace) };
    trace = Call.clock_gettime ∷ s.trace;
  }

  pub start_job-Frame : (s : Sys I J) → Frame s (start_job p s).1
  unfolding start_job starting
  start_job-Frame s = ground (arith, run-Frame (starting s))

  pub reap_child_process-Frame :
      (status : WaitStatus) (s : Sys I J) → Frame s (reap_child_process p status s).1
  unfolding reap_child_process record_status
  reap_child_process-Frame (WaitStatus.exited code) s = ground (
    arith,
    kill_process_group-job
        (record s { job = record s.job { last_exit_status = pos code; pid = pos 0 } }),
  )
  reap_child_process-Frame (WaitStatus.signaled signum) s = ground (
    arith,
    kill_process_group-job (record s {
      job = record s.job { last_exit_status = minus_one; term_signal = signum; pid = pos 0 };
    }),
  )
  reap_child_process-Frame _ s = ground arith

  pub kill_job-job : (signum : ℕ) (s : Sys I J) → (kill_job p signum s).1.job ≡ s.job
  unfolding kill_job
  kill_job-job signum s = ground arith
