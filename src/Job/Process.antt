-- ===== src/Job/Process.antt =====
-- src/job.cc: the process of a job. It is started by Job::run and Job::startJob, signalled by
-- Job::killJob and Job::killProcessGroup, and its end is recorded by Job::reapChildProcess.
use relaunchd.Prelude.{
  ℕ, zero, suc, Bool, true, false, not, Option, none, some, if◌then◌else◌, ◌==◌,
}
use relaunchd.Prelude.Assoc.{is_some}
use relaunchd.Prelude.Exec.{
  Exec, Result, ok, err, pure, throw, lift, gets, ◌>>=◌, ◌>>◌, undefined_behaviour, never_returned,
  system_error, logic_error, range_error,
}
use relaunchd.Prelude.Int.{ℤ, pos, minus_one, is_negative, negate, int_eq}
use relaunchd.Manifest.{Manifest}
use relaunchd.Event.{WaitStatus, add_process, ProcessCallback}
use relaunchd.ExecStatus.{read_status, is_success}
use relaunchd.Os.{Os, Call, Errno}
use relaunchd.Job.{Sys, Platform, call, on_job, on_events, current_time}

abbrev pub sigkill : ℕ
sigkill = 9

abbrev pub sigterm : ℕ
sigterm = 15

-- struct ExecutionContext without its environment, which is in `Job.Environment`
pub record ExecutionContext : Type 0 where
  pub gid : Option ℕ
  pub uid : Option ℕ

abbrev deref : {A : Type 0} → Option A → Result A
deref none = err undefined_behaviour
deref (some a) = ok a

-- The start of Job::run, up to `ExecutionContext ctx{uid, gid, …}`: the fields are initialised in
-- the order of their declaration, `gid` first. A user or group without an entry is a null pointer.
unfoldable pub execution_context : Os → Manifest → Result ExecutionContext
execution_context os m = elim m.user_name [
  | none ↦ ok (record { gid = none; uid = none })
  | some user ↦ elim (deref (os.getpwnam user)) [
    | err x ↦ err x
    | ok pwent ↦ elim m.group_name [
      | none ↦ ok (record { gid = some pwent.pw_uid; uid = some pwent.pw_gid })
      | some group ↦ elim (deref (os.getgrnam group)) [
        | err x ↦ err x
        | ok gr_gid ↦ ok (record { gid = some pwent.pw_uid; uid = some gr_gid })
      ]
    ]
  ]
]

-- errors of killpg(2) that end the loop
abbrev pub gives_up : Option Errno → Bool
gives_up none = false
gives_up (some Errno.esrch) = false
gives_up (some Errno.eperm) = false
gives_up (some _) = true

-- the result of the loop if waitpid(2) failed
abbrev pub all_reaped : Errno → Bool
all_reaped Errno.echild = true
all_reaped _ = false

module _ {I J : Type 0} (p : Platform I J) where
  open p use {os, kernel}

  -- `::kill(pid, signum)`, true if it succeeded
  abbrev pub send : ℤ → ℕ → Exec (Sys I J) Bool
  send pid signum = call (Call.kill pid signum) (λ t. not (is_some (os.kill_answer t pid signum)))

  -- Job::killJob: on both errors the result is false
  unfoldable pub kill_job : ℕ → Exec (Sys I J) Bool
  kill_job signum = do
    pid ← gets (λ s. s.job.pid)
    if pid == pos 0 then pure true else send pid signum

  -- the loop of Job::killProcessGroup, on fuel
  unfoldable pub kill_loop : ℕ → ℤ → Exec (Sys I J) Bool
  kill_loop zero pgid = throw never_returned
  kill_loop (suc fuel) pgid =
      call (Call.killpg pgid sigkill) (λ t. os.killpg_answer t pgid sigkill) >>= λ failure.
      elim (gives_up failure) [
        | true ↦ pure false
        | false ↦
            call (Call.waitpid (negate pgid)) (λ t. os.waitpid_fails t (negate pgid)) >>= λ rv.
            elim rv [ none ↦ kill_loop fuel pgid | some e ↦ pure (all_reaped e) ]
      ]

  -- Job::killProcessGroup
  unfoldable pub kill_process_group : Exec (Sys I J) Bool
  unfolding kill_loop
  kill_process_group = do
    pgid ← gets (λ s. s.job.pgid)
    abandon ← gets (λ s. s.job.manifest.abandon_process_group)
    if is_negative pgid
        then pure false
        else if abandon
        then pure false
        else kill_loop os.group_bound pgid

  -- the part of Job::run after `fork` in the parent
  unfoldable pub parent : ℤ → Exec (Sys I J) Bool
  parent pid = do
    now ← current_time p
    on_job (λ j. record j { started_at = some now })
    status ← gets (λ s. read_status (os.pipe_read s.trace))
    if is_success status.error_code
        then (do
          pgid ← call (Call.getpgid pid) (λ t. os.getpgid_answer t pid)
          on_job (λ j. record j { pgid = pgid })
          pure true)
        else (do
          send pid sigkill
          call (Call.waitpid pid) (λ t. os.waitpid_fails t pid)
          on_job (λ j. record j { pid = pos 0 })
          pure false)

  -- Job::run, as the parent sees it; `fork` returns 0 in the child alone
  unfoldable pub run : Exec (Sys I J) Bool
  run = do
    m ← gets (λ s. s.job.manifest)
    lift (execution_context os m)
    piped ← call Call.pipe os.pipe_succeeds
    if not piped then throw system_error else do
      pid ← call Call.fork os.fork_answer
      on_job (λ j. record j { pid = pid })
      if is_negative pid then pure false else parent pid

  -- Job::startJob
  unfoldable pub start_job : Exec (Sys I J) Unit
  start_job = do
    now ← current_time p
    on_job (λ j. record j { started_at = some now })
    success ← run
    pid ← gets (λ s. s.job.pid)
    label ← gets (λ s. s.job.manifest.label.value)
    if success
        then on_events (add_process kernel pid (ProcessCallback.job_process label))
        else pure tt

  -- the branches of Job::reapChildProcess on the status
  unfoldable pub record_status : WaitStatus → Exec (Sys I J) Unit
  record_status (WaitStatus.exited code) = on_job (λ j. record j { last_exit_status = pos code })
  record_status (WaitStatus.signaled signum) =
      on_job (λ j. record j { last_exit_status = minus_one; term_signal = signum })
  record_status (WaitStatus.stopped signum) = throw logic_error
  record_status WaitStatus.other = throw range_error

  -- Job::reapChildProcess
  unfoldable pub reap_child_process : WaitStatus → Exec (Sys I J) Unit
  reap_child_process status = do
    record_status status
    on_job (λ j. record j { pid = pos 0 })
    kill_process_group
    pure tt
