-- ===== src/Job/Kept.antt =====
-- src/job.cc: every method of a job keeps its manifest, the state file, and the timer to the state
-- Waiting.
use mathlib.Core.Path.{subst}
use relaunchd.Prelude.{ℕ, Bool, ◌≡◌, refl, ap, string_eq}
use relaunchd.Prelude.Exec.{Exec}
use relaunchd.Event.{WaitStatus}
use relaunchd.Job.{Job, Sys, Platform, Triggers}
use relaunchd.Job.Frame.{kill_job-job}
use relaunchd.Job.Process.{kill_job}
use relaunchd.Job.Machine.{
  fire, unload_job, force_unload_job, on_process_event, on_restart_timer, on_periodic_timer, react,
  Happening,
}
use relaunchd.Job.Machine.Timed.{IsTimed, react-IsTimed}
use relaunchd.Job.Machine.Advances.{react-Advances}
use relaunchd.Job.Reading.{
  fire-Unwritten, unload_job-Unwritten, force_unload_job-Unwritten, process_event-Unwritten,
  restart-Unwritten, periodic-Unwritten, kill_job-Unwritten,
}

-- a method of a job that a sound job survives
pub record Keeps {I J A : Type 0} (m : Exec (Sys I J) A) : Type 0 where
  pub timed : (s : Sys I J) → IsTimed s.job → IsTimed (m s).1.job
  pub manifest : (s : Sys I J) → (m s).1.job.manifest ≡ s.job.manifest
  pub unwritten : (s : Sys I J) → (m s).1.state_file ≡ s.state_file

module _ {I J : Type 0} (p : Platform I J) where
  kept :
      {A : Type 0} (h : Happening I J) (m : Exec (Sys I J) A)
      → ((s : Sys I J) → react p h s ≡ (m s).1)
      → ((s : Sys I J) → (m s).1.state_file ≡ s.state_file)
      → Keeps m
  kept h m same unwritten = record {
    timed = λ s t. subst (λ (u : Sys I J). IsTimed u.job) (same s) (react-IsTimed p h s t);
    manifest = λ s.
        subst (λ (u : Sys I J). u.job.manifest ≡ s.job.manifest) (same s)
          (react-Advances p h s).manifest;
    unwritten = unwritten;
  }

  pub bootstrap-Keeps : Keeps (fire p Triggers.bootstrap)
  unfolding react
  bootstrap-Keeps = kept Happening.bootstrapped _ (λ s. refl) (fire-Unwritten p Triggers.bootstrap)

  pub unload_job-Keeps : (force : Bool) → Keeps (unload_job p force)
  unfolding react
  unload_job-Keeps force =
      kept (Happening.unloaded force) _ (λ s. refl) (unload_job-Unwritten p force)

  pub force_unload_job-Keeps : Keeps (force_unload_job p)
  unfolding react
  force_unload_job-Keeps =
      kept Happening.force_unloaded _ (λ s. refl) (force_unload_job-Unwritten p)

  pub process_event-Keeps : (status : WaitStatus) → Keeps (on_process_event p status)
  unfolding react
  process_event-Keeps status =
      kept (Happening.process_event status) _ (λ s. refl) (process_event-Unwritten p status)

  pub restart-Keeps : Keeps (on_restart_timer p)
  unfolding react
  restart-Keeps = kept Happening.restart_due _ (λ s. refl) (restart-Unwritten p)

  pub periodic-Keeps : Keeps (on_periodic_timer p)
  unfolding react
  periodic-Keeps = kept Happening.periodic_due _ (λ s. refl) (periodic-Unwritten p)

  pub kill_job-Keeps : (signum : ℕ) → Keeps (kill_job p signum)
  kill_job-Keeps signum = record {
    timed = λ s t. rw (kill_job-job p signum s) t;
    manifest = λ s. ap (λ (j : Job). j.manifest) (kill_job-job p signum s);
    unwritten = kill_job-Unwritten p signum;
  }
