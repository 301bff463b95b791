-- ===== src/Manager/Consistent.antt =====
-- What holds of the jobs and the state file of the manager of src/manager.cc between any two steps of
-- the daemon, and the steps on one job.
pub mod Loading
pub mod Starting
pub mod Unloading
pub mod Running
pub mod Serving
pub mod Looping
pub mod Reached
use mathlib.Core.Path.{subst}
use relaunchd.Prelude.{
  ℕ, String, Bool, true, false, ◌≡◌, refl, ap, sym, Option, none, some, List, [], ◌∷◌, arith,
  string_eq, Option-cases, inl, inr,
}
use relaunchd.Prelude.Assoc.{is_some, lookup, contains, assign, erase, lookup-assign, lookup-erase}
use relaunchd.Prelude.Assoc.Entries.{Entries, Entries-lookup, Entries-assign, Entries-erase}
use relaunchd.Prelude.Exec.{Exec, Error, Result, ok, err, throw, lift, is_exception}
use relaunchd.Prelude.Exec.Preserves.{Preserves, Preserves-read, Preserves-test, Preserves-result}
use relaunchd.Channel.{Channel}
use relaunchd.Event.{EventManager, WaitStatus}
use relaunchd.Manifest.{Manifest}
use relaunchd.Manifest.WellFormed.{IsWellFormed}
use relaunchd.Job.{Job, Sys, Platform, States, Triggers}
use relaunchd.Job.Frame.{kill_job-job}
use relaunchd.Job.Process.{kill_job}
use relaunchd.Job.Machine.{
  fire, unload_job, force_unload_job, on_process_event, on_restart_timer, on_periodic_timer, react,
  Happening,
}
use relaunchd.Job.Machine.Timed.{IsTimed, react-IsTimed}
use relaunchd.Job.Machine.Advances.{Advances, react-Advances}
use relaunchd.StateFile.Saved.{IsSaved}
use relaunchd.Job.Reading.{
  fire-Unwritten, unload_job-Unwritten, force_unload_job-Unwritten, process_event-Unwritten,
  restart-Unwritten, periodic-Unwritten, kill_job-Unwritten,
}
use relaunchd.Manager.{Manager, Daemon, with_job, in_channel, try_catch, view, after}
use relaunchd.Job.Kept.{Keeps}

-- a job that is kept under `label`
pub record IsSound (label : String) (j : Job) : Type 0 where
  pub named : j.manifest.label.value ≡ label
  pub runnable : IsWellFormed j.manifest
  pub timed : IsTimed j

abbrev pub IsSound? : String → Option Job → Type 0
IsSound? label none = Unit
IsSound? label (some j) = IsSound label j

pub record Consistent (jobs : List (String × Job)) (pending : List (String × Option Job))
    : Type 0 where
  pub sound : Entries IsSound jobs
  pub pending_sound : Entries IsSound? pending
  -- a label that names a pending job names no other
  pub apart :
      (label : String) (j : Job)
      → lookup label pending ≡ some (some j)
      → contains label jobs ≡ false

abbrev pub IsConsistent : {I J : Type 0} → Manager I J → Type 0
IsConsistent s = Consistent s.jobs s.pending_jobs × IsSaved s.state_file

-- `label` still names what it named
assign-Consistent :
    (label : String) (job job' : Job) (jobs : List (String × Job))
    (pending : List (String × Option Job))
    → lookup label jobs ≡ some job
    → IsSound label job'
    → Consistent jobs pending
    → Consistent (assign label job' jobs) pending
assign-Consistent label job job' jobs pending found sound c = record {
  sound = Entries-assign IsSound label job' jobs sound c.sound;
  pending_sound = c.pending_sound;
  apart = λ other j h. ground (
    arith,
    found,
    c.apart other j h,
    lookup-assign label other job' jobs,
    string_eq.equals_iff label other,
  );
}

pub erase-Consistent :
    (label : String) (jobs : List (String × Job)) (pending : List (String × Option Job))
    → Consistent jobs pending
    → Consistent (erase label jobs) pending
erase-Consistent label jobs pending c = record {
  sound = Entries-erase IsSound label jobs c.sound;
  pending_sound = c.pending_sound;
  apart = λ other j h. ground (arith, c.apart other j h, lookup-erase label other jobs);
}

module _ {I J : Type 0} where
  after-IsSound :
      {A : Type 0} (label : String) (job : Job) (m : Exec (Sys I J) A) (s : Manager I J)
      → Keeps m
      → IsSound label job
      → IsSound label (m (view job s)).1.job
  after-IsSound label job m s k h =
      let e = k.manifest (view job s) in
      record {
        named = ground (arith, e, h.named);
        runnable = subst IsWellFormed (sym e) h.runnable;
        timed = k.timed (view job s) h.timed;
      }

  with_job-missing :
      {A : Type 0} (x : Error) (label : String) (m : Exec (Sys I J) A) (s : Manager I J)
      → lookup label s.jobs ≡ none
      → (with_job (throw x) label m s).1 ≡ s
  unfolding with_job
  with_job-missing x label m s e = ground (arith, e)

  with_job-found :
      {A : Type 0} (x : Error) (label : String) (job : Job) (m : Exec (Sys I J) A) (s : Manager I J)
      → lookup label s.jobs ≡ some job
      → (with_job (throw x) label m s).1 ≡ after label (m (view job s)).1 s
  unfolding with_job
  with_job-found x label job m s e = ground (arith, e)

  pub with_job-Preserves :
      {A : Type 0} (x : Error) (label : String) (m : Exec (Sys I J) A)
      → Keeps m
      → Preserves IsConsistent (with_job (throw x) label m)
  with_job-Preserves x label m k = record {
    holds = λ s c. elim (Option-cases (lookup label s.jobs)) [
      | inl e ↦ rw (with_job-missing x label m s e) c
      | inr (job, e) ↦
          let sound = Entries-lookup IsSound label job s.jobs c.0.sound e in
          rw (with_job-found x label job m s e) (
            assign-Consistent label job _ s.jobs s.pending_jobs e
                (after-IsSound label job m s k sound) c.0,
            subst IsSaved (sym (k.unwritten (view job s))) c.1,
          )
    ];
  }

  pub in_channel-Preserves :
      {A : Type 0} (m : Exec Channel A) → Preserves IsConsistent (in_channel {I = I} {J = J} m)
  in_channel-Preserves m = record { holds = λ s c. c }

  -- what follows the body of a `try`
  handled-Preserves :
      {A : Type 0} (r : Result A) (handler : Exec (Manager I J) A)
      → Preserves IsConsistent handler
      → Preserves IsConsistent (try_catch (lift r) handler)
  handled-Preserves r handler q =
      Preserves-result (λ _. r) _ _ (λ a. Preserves-read (λ _. ok a))
        (λ x. Preserves-test (λ _. is_exception x) handler _ q (Preserves-read (λ _. err x)))

  pub try_catch-Preserves :
      {A : Type 0} (m handler : Exec (Manager I J) A)
      → Preserves IsConsistent m
      → Preserves IsConsistent handler
      → Preserves IsConsistent (try_catch m handler)
  try_catch-Preserves m handler p q = record {
    holds = λ s c. (handled-Preserves (m s).0 handler q).holds (m s).1 (p.holds s c);
  }
