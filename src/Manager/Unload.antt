-- ===== src/Manager/Unload.antt =====
-- src/manager.cc: how jobs are unloaded and killed.
use relaunchd.Prelude.{
  String, Bool, true, false, not, ◌&&◌, none, some, List, [], ◌∷◌, string_eq, if◌then◌else◌,
}
use relaunchd.Prelude.Assoc.{lookup}
use relaunchd.Prelude.Exec.{
  Exec, ok, err, pure, lift, gets, modify, noexcept, ◌>>=◌, ◌>>◌, is_exception,
}
use relaunchd.Prelude.Text.{codes}
use relaunchd.Manifest.{new_label}
use relaunchd.Signals.{get_signal_by_name}
use relaunchd.Job.{Job, States}
use relaunchd.Job.Process.{kill_job}
use relaunchd.Job.Machine.{same_state, unload_job, force_unload_job}
use relaunchd.Manifest.Parse.{parse}
use relaunchd.Manager.{Manager, Daemon, job_exists, on_job, with_job, try_catch}
use relaunchd.Manager.Load.{override_enabled}

-- the test in the loop of unloadAllJobs
abbrev pub wants_unload : Job → Bool
wants_unload j = not (same_state j.state States.unloaded) && not j.unload_requested

module _ {I J : Type 0} (d : Daemon I J) where
  open d use {platform}

  -- Manager::unloadJob(Job &, overrideDisabled, forceUnload), for the job under `label`
  unfoldable pub unload_this : String → Bool → Bool → Exec (Manager I J) Bool
  unfolding with_job
  unload_this label override_disabled force_unload = do
    if override_disabled then override_enabled d label false else pure tt
    on_job label (unload_job platform force_unload)

  -- Manager::unloadJob(const Label &, overrideDisabled, forceUnload)
  unfoldable pub unload_label : String → Bool → Bool → Exec (Manager I J) Bool
  unfolding unload_this
  unload_label label override_disabled force_unload = do
    known ← gets (job_exists label)
    if not known then pure false else unload_this label override_disabled force_unload

  -- Manager::unloadJob(const path &, overrideDisabled, forceUnload): an exception of the reader is
  -- caught, one of `get_to` or of `Label` is not
  unfoldable pub unload_path : String → Bool → Bool → Exec (Manager I J) Bool
  unfolding parse
  unload_path path override_disabled force_unload s = elim (parse platform.json d.reader path) [
    | err x ↦ if is_exception x then (ok false, s) else (err x, s)
    | ok obj ↦
        if platform.json.contains obj "Label"
        then ((do
          entry ← lift (platform.json.at obj "Label")
          buf ← lift (platform.json.get_string entry)
          label ← lift (new_label buf)
          unload_label label.value override_disabled force_unload)
            s)
        else (ok false, s)
  ]

  -- Manager::killJob
  unfoldable pub kill_label : String → String → Exec (Manager I J) Bool
  unfolding with_job
  kill_label label signame_or_number s = elim (get_signal_by_name (codes signame_or_number)) [
    | none ↦ (ok false, s)
    | some signum ↦
        if not (job_exists label s)
        then (ok false, s)
        else on_job label (kill_job platform signum) s
  ]

  -- a round of the loop of unloadAllJobs
  unfoldable pub unload_one : String → Exec (Manager I J) Bool
  unfolding with_job
  unload_one label s = elim (lookup label s.jobs) [
    | none ↦ (ok true, s)
    | some j ↦
        if wants_unload j
        then try_catch (on_job label (unload_job platform true)) (pure false) s
        else (ok true, s)
  ]

  unfoldable pub unload_each : List (String × Job) → Bool → Exec (Manager I J) Bool
  unfolding unload_one
  unload_each [] success = pure success
  unload_each ((label, j) ∷ rest) success =
      unload_one label >>= λ done. unload_each rest (success && done)

  -- Manager::unloadAllJobs
  unfoldable pub unload_all_jobs : Exec (Manager I J) Bool
  unfolding unload_each
  unload_all_jobs = noexcept (gets (λ s. s.jobs) >>= λ jobs. unload_each jobs true)

  unfoldable pub force_each : List (String × Job) → Exec (Manager I J) Unit
  unfolding with_job
  force_each [] = pure tt
  force_each ((label, j) ∷ rest) = on_job label (force_unload_job platform) >> force_each rest

  -- Manager::forceUnloadAllJobs
  unfoldable pub force_unload_all_jobs : Exec (Manager I J) Unit
  unfolding force_each
  force_unload_all_jobs =
      noexcept (do jobs ← gets (λ s. s.jobs); force_each jobs; modify (λ s. record s { jobs = [] }))
