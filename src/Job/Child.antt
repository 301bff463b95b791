-- ===== src/Job/Child.antt =====
-- Job::start_child_process and replace_fd of src/job.cc: what the child does between `fork` and
-- `execve`, on a system without setlogin(2). The state is the trace of the calls; the result is a
-- status if a call failed, and `none` if `execve` replaced the program.
pub mod Order
pub mod Report
use relaunchd.Prelude.{
  ◌++◌, ℕ, String, Bool, true, false, Option, none, some, List, [], ◌∷◌, if◌then◌else◌,
}
use relaunchd.Prelude.Exec.{Exec, Result, ok, err, bad_optional_access, logic_error}
use relaunchd.ExecStatus.{ExecStatus, ExecErrorCode, ErrorContext, PipeRead}
use relaunchd.Os.{Os, Call, Trace}
use relaunchd.Manifest.{Manifest}
use relaunchd.Job.Process.{ExecutionContext}

abbrev pub Child : Type 0
Child = Exec Trace (Option ExecStatus)

abbrev pub failed : ExecErrorCode → ℕ → ErrorContext → Child
failed code errno context t =
    (ok (some (record { error_code = code; saved_errno = errno; error_context = context })), t)

-- what is written if the cleanup throws
abbrev pub cleanup_message : Result (Unit {0}) → List ExecStatus
cleanup_message (ok done) = []
cleanup_message (err x) =
    record {
      error_code = ExecErrorCode.fork_handler_failed;
      saved_errno = 0;
      error_context = ErrorContext.child_process;
    }
    ∷ []

-- the messages of a `write` that succeeds or fails
abbrev pub delivered : Bool → List ExecStatus → List ExecStatus
delivered true messages = messages
delivered false messages = []

module _ (os : Os) where
  -- `if (call < 0) { return ExecStatus{code, errno}; }`, then the rest
  unfoldable pub attempt : Call → ExecErrorCode → ErrorContext → Child → Child
  attempt c code context rest t = elim (os.child_answer t c) [
    | some errno ↦ failed code errno context (c ∷ t)
    | none ↦ rest (c ∷ t)
  ]

  -- `if (option && call(*option) < 0) { … }`
  unfoldable pub attempt_with : {A : Type 0} → Option A → (A → Call) → ExecErrorCode → Child → Child
  unfolding attempt
  attempt_with none c code rest = rest
  attempt_with (some a) c code rest = attempt (c a) code ErrorContext.child_process rest

  -- `option.value()`
  abbrev pub value_of : {A : Type 0} → Option A → (A → Child) → Child
  value_of none rest t = (err bad_optional_access, t)
  value_of (some a) rest t = rest a t

  -- a `dup2` that failed: the new descriptor is closed, which may change `errno`
  abbrev pub give_up : ℕ → ErrorContext → Child
  give_up errno context t = elim (os.child_answer t Call.close_file) [
    | none ↦ failed ExecErrorCode.dup2_failed errno context (Call.close_file ∷ t)
    | some changed ↦ failed ExecErrorCode.dup2_failed changed context (Call.close_file ∷ t)
  ]

  -- replace_fd, and what its caller adds to the status
  unfoldable pub replace_fd : ℕ → String → ErrorContext → Child → Child
  unfolding attempt
  replace_fd oldfd path context rest =
      attempt (Call.open_file path) ExecErrorCode.open_failed context λ t.
        elim (os.child_answer t (Call.dup2 oldfd)) [
          | some errno ↦ give_up errno context (Call.dup2 oldfd ∷ t)
          | none ↦
              attempt Call.close_file ExecErrorCode.close_failed context rest (Call.dup2 oldfd ∷ t)
        ]

  -- the block for `manifest.user_name`
  unfoldable pub become_user : Manifest → ExecutionContext → Child → Child
  unfolding attempt
  become_user m ctx rest = elim m.user_name [
    | none ↦ rest
    | some user ↦
        let groups = value_of ctx.gid λ gid.
          attempt (Call.setgid gid) ExecErrorCode.set_group_id_failed ErrorContext.child_process (
            value_of ctx.uid λ uid.
              attempt (Call.setuid uid) ExecErrorCode.set_user_id_failed ErrorContext.child_process
                rest) in
        elim m.init_groups [
          | false ↦ groups
          | true ↦ value_of ctx.gid λ gid.
              attempt (Call.initgroups user gid) ExecErrorCode.init_groups_failed
                ErrorContext.child_process groups
        ]
  ]

  -- the program to execute: `program`, or the first of the arguments
  abbrev pub path_of : Manifest → Option String
  path_of m = go m.program m.program_arguments
    where
      go : Option String → List String → Option String
      go (some p) args = some p
      go none [] = none
      go none (a ∷ args) = some a

  -- from the two arrays to `execve`
  unfoldable pub execute_program : Manifest → Child
  unfolding attempt
  execute_program m =
      attempt Call.allocate ExecErrorCode.memory_allocation_failed ErrorContext.child_process (
        attempt Call.allocate ExecErrorCode.memory_allocation_failed ErrorContext.child_process λ t.
          elim (path_of m) [
            | none ↦ (err logic_error, t)
            | some path ↦
                attempt Call.execve ExecErrorCode.exec_failed ErrorContext.child_process
                  (λ u. (ok none, u)) t
          ])

  -- the default is S_IWGRP | S_IWOTH
  abbrev pub mask_of : Option ℕ → ℕ
  mask_of none = 18
  mask_of (some mask) = mask

  -- Job::start_child_process
  unfoldable pub start_child_process : Manifest → ExecutionContext → Child
  start_child_process m ctx t =
      attempt Call.setsid ExecErrorCode.create_session_failed ErrorContext.child_process
        (attempt_with m.nice Call.setpriority ExecErrorCode.set_priority_failed (
          attempt_with m.working_directory Call.chdir ExecErrorCode.set_working_directory_failed (
            attempt_with m.root_directory Call.chroot ExecErrorCode.set_root_directory_failed (
              become_user m ctx (
                replace_fd 0 m.stdin_path ErrorContext.redirect_stdin (
                  replace_fd 1 m.stdout_path ErrorContext.redirect_stdout (
                    replace_fd 2 m.stderr_path ErrorContext.redirect_stderr
                      (execute_program m))))))))
        (Call.umask (mask_of m.umask) ∷ t)

  -- The branch of Job::run in the child, where `cleanup` is what `post_fork_cleanup` does: the
  -- messages that are in the pipe then, newest first. The child exits or is replaced. A message is
  -- shorter than PIPE_BUF, so that a `write` puts it there as a whole or fails, which writeStatus only
  -- logs; `first` and `second` say whether the two writes succeed.
  unfoldable pub run_child :
      Bool
      → Bool
      → Result (Unit {0})
      → Manifest
      → ExecutionContext
      → Trace
      → Result (List ExecStatus)
  unfolding start_child_process
  run_child first second cleanup m ctx t = elim (start_child_process m ctx t).0 [
    | err x ↦ err x
    | ok none ↦ ok (delivered first (cleanup_message cleanup))
    | ok (some status) ↦
        ok (delivered second (status ∷ []) ++ delivered first (cleanup_message cleanup))
  ]

-- the last of a list, which is the oldest message
abbrev oldest : ExecStatus → List ExecStatus → ExecStatus
oldest status [] = status
oldest status (older ∷ rest) = oldest older rest

-- what goes wrong in the `read` of readStatus: it fails, or a signal leaves it short
pub data ReadFault : Type 0 where
  none_at_all interrupted : ReadFault
  failing : ℕ → ReadFault

-- what the parent finds in the pipe
abbrev pub received : ReadFault → List ExecStatus → PipeRead
received (ReadFault.failing errno) messages = PipeRead.failed errno
received ReadFault.interrupted messages = PipeRead.short_read
received ReadFault.none_at_all [] = PipeRead.end_of_file
received ReadFault.none_at_all (status ∷ rest) = PipeRead.message (oldest status rest)
