-- ===== src/Os.antt =====
-- The operating system below src/job.cc. Every call is recorded in a trace, newest first; what a
-- call answers may depend on the whole trace before it, so that an `Os` is any system that answers
-- deterministically. None of it is code of the repository: it is a parameter of the model.
use relaunchd.Prelude.{ℕ, String, Bool, Option, List}
use relaunchd.Prelude.Int.{ℤ}
use relaunchd.ExecStatus.{PipeRead}

pub data Call : Type 0 where
  clock_gettime fork pipe setsid allocate execve : Call
  kill : ℤ → ℕ → Call
  killpg : ℤ → ℕ → Call
  waitpid : ℤ → Call
  getpgid : ℤ → Call
  rename : Call
  -- made by the child before it calls execve
  umask : ℕ → Call
  setpriority : ℕ → Call
  chdir chroot : String → Call
  initgroups : String → ℕ → Call
  setgid setuid : ℕ → Call
  open_file : String → Call
  dup2 : ℕ → Call
  close_file : Call

abbrev pub Trace : Type 0
Trace = List Call

pub data Errno : Type 0 where
  esrch eperm echild : Errno
  other : ℕ → Errno

-- struct passwd, struct group
pub record Passwd : Type 0 where
  pub pw_name : String
  pub pw_dir : String
  pub pw_shell : String
  pub pw_uid : ℕ
  pub pw_gid : ℕ

pub record Os : Type 0 where
  -- clock_gettime(CLOCK_MONOTONIC), in seconds
  pub clock : Trace → ℕ
  -- what `fork` returns to the parent
  pub fork_answer : Trace → ℤ
  pub getpgid_answer : Trace → ℤ → ℤ
  -- `none`: the call succeeded
  pub kill_answer : Trace → ℤ → ℕ → Option Errno
  pub killpg_answer : Trace → ℤ → ℕ → Option Errno
  -- `waitpid` failed, or returned a process identifier
  pub waitpid_fails : Trace → ℤ → Option Errno
  pub pipe_read : Trace → PipeRead
  pub pipe_succeeds : Trace → Bool
  pub rename_succeeds : Trace → Bool
  -- a call of the child: `some errno` if it failed
  pub child_answer : Trace → Call → Option ℕ
  pub getpwnam : String → Option Passwd
  pub getgrnam : String → Option ℕ
  pub getuid : ℕ
  pub getpwuid : ℕ → Option Passwd
  -- more rounds than any process group has children
  pub group_bound : ℕ
