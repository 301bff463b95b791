-- ===== src/Manager/Consistent/Unloading.antt =====
-- src/manager.cc: unloading and killing jobs keeps the jobs of the manager consistent.
use relaunchd.Prelude.{ℕ, String, Bool, true, false, refl, List, [], ◌∷◌, not, string_eq}
use relaunchd.Prelude.Assoc.{lookup}
use relaunchd.Prelude.Text.{codes}
use relaunchd.Signals.{get_signal_by_name}
use relaunchd.Manifest.Parse.{parse}
use relaunchd.Prelude.Exec.{Exec, modify, lift, pure, ◌>>=◌, is_exception, out_of_range}
use relaunchd.Prelude.Exec.Preserves.{
  Preserves, preserves_rules, Preserves->>=, Preserves-read, Preserves-test, Preserves-option,
  Preserves-result,
}
use relaunchd.Manager.{Manager, Daemon, on_job, job_exists, try_catch}
use relaunchd.Manifest.{new_label}
use relaunchd.Job.{Job}
use relaunchd.Job.Machine.{unload_job, force_unload_job}
use relaunchd.Job.Process.{kill_job}
use relaunchd.Manager.Unload.{
  wants_unload, unload_this, unload_label, unload_path, kill_label, unload_one, unload_each,
  unload_all_jobs, force_each, force_unload_all_jobs,
}
use relaunchd.Job.Kept.{unload_job-Keeps, force_unload_job-Keeps, kill_job-Keeps}
use relaunchd.Manager.Consistent.{IsConsistent, with_job-Preserves, try_catch-Preserves}
use relaunchd.Manager.Consistent.Loading.{override_enabled-Preserves}

module _ {I J : Type 0} (d : Daemon I J) where
  unload_on-Preserves :
      (label : String) (force : Bool)
      → Preserves IsConsistent (on_job label (unload_job d.platform force))
  unload_on-Preserves label force =
      with_job-Preserves out_of_range label _ (unload_job-Keeps d.platform force)

  force_on-Preserves :
      (label : String) → Preserves IsConsistent (on_job label (force_unload_job d.platform))
  force_on-Preserves label =
      with_job-Preserves out_of_range label _ (force_unload_job-Keeps d.platform)

  kill_on-Preserves :
      (label : String) (signum : ℕ)
      → Preserves IsConsistent (on_job label (kill_job d.platform signum))
  kill_on-Preserves label signum =
      with_job-Preserves out_of_range label _ (kill_job-Keeps d.platform signum)

  unload_this-Preserves :
      (label : String) (override force : Bool)
      → Preserves IsConsistent (unload_this d label override force)
  unfolding unload_this
  unload_this-Preserves label override force =
      search (preserves_rules, override_enabled-Preserves, unload_on-Preserves)

  pub unload_label-Preserves :
      (label : String) (override force : Bool)
      → Preserves IsConsistent (unload_label d label override force)
  unfolding unload_label
  unload_label-Preserves label override force = search (preserves_rules, unload_this-Preserves)

  -- what `unload_path` does with a document that has a label
  abbrev unload_read : J → Bool → Bool → Exec (Manager I J) Bool
  unload_read obj override force = do
    entry ← lift (d.platform.json.at obj "Label")
    buf ← lift (d.platform.json.get_string entry)
    label ← lift (new_label buf)
    unload_label d label.value override force

  unload_read-Preserves :
      (obj : J) (override force : Bool) → Preserves IsConsistent (unload_read obj override force)
  unload_read-Preserves obj override force = search (preserves_rules, unload_label-Preserves)

  pub unload_path-Preserves :
      (path : String) (override force : Bool)
      → Preserves IsConsistent (unload_path d path override force)
  unfolding unload_path
  unload_path-Preserves path override force =
      Preserves-result (λ _. parse d.platform.json d.reader path) _ _
        (λ obj.
          Preserves-test (λ _. d.platform.json.contains obj "Label")
            (unload_read obj override force) _ (unload_read-Preserves obj override force)
            (Preserves-read _))
        (λ x. Preserves-test (λ _. is_exception x) _ _ (Preserves-read _) (Preserves-read _))

  pub kill_label-Preserves :
      (label signal : String) → Preserves IsConsistent (kill_label d label signal)
  unfolding kill_label
  kill_label-Preserves label signal =
      Preserves-option (λ _. get_signal_by_name (codes signal)) _ _ (Preserves-read _)
        (λ signum.
          Preserves-test (λ s. not (job_exists label s)) _ _ (Preserves-read _)
            (kill_on-Preserves label signum))

  unload_one-Preserves : (label : String) → Preserves IsConsistent (unload_one d label)
  unfolding unload_one
  unload_one-Preserves label =
      Preserves-option (λ s. lookup label s.jobs) _ _ (Preserves-read _)
        (λ j.
          Preserves-test (λ _. wants_unload j)
            (try_catch (on_job label (unload_job d.platform true)) (pure false)) _
            (search (preserves_rules, try_catch-Preserves, unload_on-Preserves)) (Preserves-read _))

  unload_each-Preserves :
      (jobs : List (String × Job)) (success : Bool)
      → Preserves IsConsistent (unload_each d jobs success)
  unfolding unload_each
  unload_each-Preserves [] success = search preserves_rules
  unload_each-Preserves ((label, j) ∷ rest) success =
      Preserves->>= (unload_one d label) _ (unload_one-Preserves label)
        (λ done. unload_each-Preserves rest _)

  pub unload_all_jobs-Preserves : Preserves IsConsistent (unload_all_jobs d)
  unfolding unload_all_jobs
  unload_all_jobs-Preserves = search (preserves_rules, unload_each-Preserves)

  force_each-Preserves : (jobs : List (String × Job)) → Preserves IsConsistent (force_each d jobs)
  unfolding force_each
  force_each-Preserves [] = search preserves_rules
  force_each-Preserves ((label, j) ∷ rest) =
      Preserves->>= (on_job label (force_unload_job d.platform)) _ (force_on-Preserves label)
        (λ _. force_each-Preserves rest)

  no_jobs-Preserves : Preserves IsConsistent (modify (λ (s : Manager I J). record s { jobs = [] }))
  unfolding lookup
  no_jobs-Preserves = record {
    holds = λ s c.
        (record { sound = tt; pending_sound = c.0.pending_sound; apart = λ label j h. refl }, c.1);
  }

  pub force_unload_all_jobs-Preserves : Preserves IsConsistent (force_unload_all_jobs d)
  unfolding force_unload_all_jobs
  force_unload_all_jobs-Preserves =
      search (preserves_rules, force_each-Preserves, no_jobs-Preserves)
