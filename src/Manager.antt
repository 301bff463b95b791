-- ===== src/Manager.antt =====
-- src/manager.h and src/manager.cc: the state of the manager, and how it reaches its jobs. Jobs are
-- kept by label; the order of an association list stands for the order of an `unordered_map`.
pub mod Load
pub mod Unload
pub mod Machine
pub mod Loop
pub mod Listing
pub mod Asked
pub mod Shutdown
pub mod Loaded
pub mod Removed
pub mod Started
pub mod Reopened
pub mod Retried
pub mod Stopped
pub mod Consistent
use relaunchd.Prelude.{
  ℕ, String, Bool, true, false, not, Option, none, some, List, [], ◌∷◌, string_eq, if◌then◌else◌,
}
use relaunchd.Prelude.Assoc.{lookup, contains, assign, insert}
use relaunchd.Prelude.Exec.{
  Exec, Result, ok, err, pure, throw, gets, modify, ◌>>=◌, ◌>>◌, out_of_range, undefined_behaviour,
  assertion_failed, is_exception,
}
use relaunchd.Manifest.Parse.{Reader}
use relaunchd.Domain.{Domain, BuildConfig}
use relaunchd.Event.{EventManager}
use relaunchd.Net.{Net}
use relaunchd.Channel.{Channel, JsonText}
use relaunchd.Os.{Trace}
use relaunchd.StateFile.{StateFile}
use relaunchd.Job.{Job, Sys, Platform, Triggers}
use relaunchd.Job.Machine.{fire}

-- Manager::States and Manager::Triggers
pub data ManagerState : Type 0 where
  unconfigured running graceful_shutdown finished : ManagerState

pub data ManagerTrigger : Type 0 where
  start_requested stop_requested all_jobs_exited : ManagerTrigger

-- Manager::stateToString
unfoldable pub state_to_string : ManagerState → String
state_to_string ManagerState.unconfigured = "unconfigured"
state_to_string ManagerState.running = "running"
state_to_string ManagerState.graceful_shutdown = "shutting-down"
state_to_string ManagerState.finished = "finished"

-- Manager::triggerToString
unfoldable pub trigger_to_string : ManagerTrigger → String
trigger_to_string ManagerTrigger.start_requested = "StartRequested"
trigger_to_string ManagerTrigger.stop_requested = "StopRequested"
trigger_to_string ManagerTrigger.all_jobs_exited = "AllJobsExited"

pub data ManagerResult : Type 0 where
  exit reboot halt halt_and_power_down single_user_mode : ManagerResult

-- A pending job is `none` once it was moved to the jobs: a null pointer.
pub record Manager (I J : Type 0) : Type 0 where
  pub pending_jobs : List (String × Option Job)
  pub jobs : List (String × Job)
  pub eventmgr : EventManager I
  pub chan : Channel
  pub state_file : StateFile J
  -- the current state of the member `fsm`
  pub state : ManagerState
  pub pending_result : ManagerResult
  pub trace : Trace

-- What `std::filesystem` finds at a path: a file, or a directory with the paths in it.
pub data Found : Type 0 where
  absent file : Found
  directory : List String → Found

-- what the manager is built on
pub record Daemon (I J : Type 0) : Type 0 where
  pub platform : Platform I J
  pub config : BuildConfig
  pub domain : Domain
  pub find : String → Found
  -- the file system and the readers below `manifest::parse`
  pub reader : Reader J
  pub net : Net
  pub text : JsonText J
  -- `relaunch::config::VERSION`, which the build generates
  pub version : String

module _ {I J : Type 0} where
  -- `try { m } catch (...) { handler }`
  abbrev pub try_catch :
      {A : Type 0} → Exec (Manager I J) A → Exec (Manager I J) A → Exec (Manager I J) A
  try_catch m handler s =
      let (r, s') = m s in
      elim r [ ok a ↦ (ok a, s') | err x ↦ if is_exception x then handler s' else (err x, s') ]

  -- a method of the channel
  abbrev pub in_channel : {A : Type 0} → Exec Channel A → Exec (Manager I J) A
  in_channel m s = let (r, c) = m s.chan in (r, record s { chan = c })

  -- what a method of `job` sees
  abbrev pub view : Job → Manager I J → Sys I J
  view job s = record { job = job; events = s.eventmgr; state_file = s.state_file; trace = s.trace }

  -- the manager after a method of the job `label`
  abbrev pub after : String → Sys I J → Manager I J → Manager I J
  after label t s = record s {
    jobs = assign label t.job s.jobs;
    eventmgr = t.events;
    state_file = t.state_file;
    trace = t.trace;
  }

  -- a method of a job that is there
  abbrev pub on_found : {A : Type 0} → String → Job → Exec (Sys I J) A → Exec (Manager I J) A
  on_found label job m s = let (r, t) = m (view job s) in (r, after label t s)

  -- a method of the job `label`, where `failure` is what a missing job leads to
  unfoldable pub with_job :
      {A : Type 0} → Exec (Manager I J) A → String → Exec (Sys I J) A → Exec (Manager I J) A
  unfolding lookup assign
  with_job missing label m s = elim (lookup label s.jobs) [
    | none ↦ missing s
    | some job ↦ on_found label job m s
  ]

  -- `getJob(label)`
  abbrev pub on_job : {A : Type 0} → String → Exec (Sys I J) A → Exec (Manager I J) A
  on_job = with_job (throw out_of_range)

  -- Manager::jobExists
  unfoldable pub job_exists : String → Manager I J → Bool
  unfolding lookup
  job_exists label s = contains label s.jobs

module _ {I J : Type 0} (d : Daemon I J) where
  -- `jobs.emplace(label, std::move(jobp)); jobs.at(label)->fsm.execute(Bootstrap);`
  unfoldable pub start_pending : String → Option Job → Exec (Manager I J) Unit
  unfolding with_job insert assign
  start_pending label none = throw undefined_behaviour
  start_pending label (some job) =
      modify (λ s. record s {
        pending_jobs = assign label none s.pending_jobs;
        jobs = insert label job s.jobs;
      })
      >> (on_job label (fire d.platform Triggers.bootstrap) >> pure tt)

  -- the loop of Manager::startAllJobs
  unfoldable pub start_each : List (String × Option Job) → Exec (Manager I J) Unit
  unfolding job_exists
  start_each [] = pure tt
  start_each ((label, entry) ∷ rest) = gets (job_exists label) >>= λ known. elim known [
    | true ↦ throw assertion_failed
    | false ↦ start_pending label entry >> start_each rest
  ]

  -- Manager::startAllJobs
  unfoldable pub start_all_jobs : Exec (Manager I J) Unit
  start_all_jobs = do
    pending ← gets (λ s. s.pending_jobs)
    start_each pending
    modify (λ s. record s { pending_jobs = [] })
