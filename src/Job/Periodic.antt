-- ===== src/Job/Periodic.antt =====
-- src/job.cc: a job with StartInterval. Its timer starts the process without the state machine, and
-- no transition leaves Waiting on the exit of a process.
use relaunchd.Prelude.{ℕ, suc, true, ◌≡◌, none, ◌∷◌}
use relaunchd.Prelude.Int.{pos}
use relaunchd.ExecStatus.{read_status, is_success}
use relaunchd.Os.{Call}
use relaunchd.Job.{Sys, Platform, States}

module _ {I J : Type 0} (p : Platform I J) where
  -- waiting, with nothing that will start the job
  abbrev IsIdle : Sys I J → Type 0
  IsIdle s = (s.job.state ≡ States.waiting) × (s.job.timer_id ≡ none)

  -- the job once its timer went off
  abbrev due : Sys I J → Sys I J
  due s = record s { job = record s.job { timer_id = none } }

  -- The pipe and the child of a start are made, and the child reports no failure.
  pub record Runs (s : Sys I J) (child : ℕ) : Type 0 where
    pub piped : p.os.pipe_succeeds (Call.clock_gettime ∷ s.trace) ≡ true
    pub forked : p.os.fork_answer (Call.pipe ∷ Call.clock_gettime ∷ s.trace) ≡ pos (suc child)
    pub running :
        is_success
          (read_status (
            p.os.pipe_read (
              Call.clock_gettime ∷ Call.fork ∷ Call.pipe ∷ Call.clock_gettime
              ∷ s.trace))).error_code
        ≡ true
