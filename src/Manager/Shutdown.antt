-- ===== src/Manager/Shutdown.antt =====
-- The shutdown of the manager in src/manager.cc.
use relaunchd.Prelude.{String, false, ◌≡◌, refl, Option, List, [], ◌∷◌, arith, string_eq, ℕ}
use relaunchd.Prelude.Exec.{Exec, ok}
use relaunchd.Job.{Job, Sys}
use relaunchd.Job.Machine.{force_unload_job}
use relaunchd.Manager.{Manager, ManagerState, ManagerTrigger, Daemon, with_job, on_job}
use relaunchd.Manager.Unload.{force_unload_all_jobs, force_each}
use relaunchd.Manager.Machine.{handle_shutdown_signal}
use relaunchd.Manager.Loop.{handle_in, handle_event}
use relaunchd.Manager.Machine.Step.{manager_step, fire-manager_step}

module _ {I J : Type 0} (d : Daemon I J) where
  -- A manager that shuts down and has no job left is finished by the next round of its main loop,
  -- which then is the last one.
  pub handle_event-drained :
      (timeout : Option ℕ) (s : Manager I J)
      → s.state ≡ ManagerState.graceful_shutdown
      → s.jobs ≡ []
      → handle_event d timeout s ≡ (ok false, record s { state = ManagerState.finished })
  unfolding handle_event handle_in manager_step
  handle_event-drained timeout s g e =
      ground (arith, fire-manager_step d ManagerTrigger.all_jobs_exited s)

  with_job-state :
      {A : Type 0} (label : String) (m : Exec (Sys I J) A) (s : Manager I J)
      → (on_job label m s).1.state ≡ s.state
  unfolding with_job
  with_job-state label m s = ground arith

  force_each-state :
      (entries : List (String × Job)) (s : Manager I J) → (force_each d entries s).1.state ≡ s.state
  unfolding force_each
  force_each-state [] s = refl
  force_each-state ((label, j) ∷ rest) s =
      let e = with_job-state label (force_unload_job d.platform) s in
      ground (arith, e, force_each-state rest (on_job label (force_unload_job d.platform) s).1)

  pub force_unload_all_jobs-state :
      (s : Manager I J)
      → (force_unload_all_jobs d s).0 ≡ ok tt
      → ((force_unload_all_jobs d s).1.jobs ≡ []) × ((force_unload_all_jobs d s).1.state ≡ s.state)
  unfolding force_unload_all_jobs
  force_unload_all_jobs-state s h = ground (arith, force_each-state s.jobs s)

  -- A second signal to shut down ends the manager: if no exception leaves the forced unloading of
  -- the jobs, no job is left and the state is Finished.
  pub handle_shutdown_signal-forced :
      (s : Manager I J)
      → s.state ≡ ManagerState.graceful_shutdown
      → (force_unload_all_jobs d s).0 ≡ ok tt
      → let (r, t) = handle_shutdown_signal d s in
        (r ≡ ok tt) × (t.jobs ≡ []) × (t.state ≡ ManagerState.finished)
  unfolding handle_shutdown_signal manager_step
  handle_shutdown_signal-forced s g h =
      let t = (force_unload_all_jobs d s).1 in
      let (j, st) = force_unload_all_jobs-state s h in
      ground (arith, g, h, j, st, fire-manager_step d ManagerTrigger.all_jobs_exited t)
