-- ===== src/Tests/Children.antt =====
-- The theorems on the child process and its environment at concrete inputs.
use relaunchd.Prelude.{◌⊎◌, string_eq, ◌≡◌, refl, ◌↔◌, true, false, none, some, [], ◌∷◌}
use relaunchd.Prelude.Int.{pos}
use relaunchd.Prelude.Exec.{Result, ok}
use relaunchd.ExecStatus.{ExecStatus, ExecErrorCode, ErrorContext}
use relaunchd.Os.{Os, Call, Passwd}
use relaunchd.Job.Process.{ExecutionContext}
use relaunchd.Job.Child.{
  ReadFault, attempt, attempt_with, become_user, replace_fd, execute_program, start_child_process,
  run_child,
}
use relaunchd.Job.Child.Order.{start_child_process-order}
use relaunchd.Job.Child.Report.{takes_for_started, run_child-received}
use relaunchd.Tests.Systems.{system, manifest_of}

abbrev context : ExecutionContext
context = record { gid = some 7; uid = some 8 }

abbrev user_manifest : relaunchd.Manifest.Manifest
user_manifest = record (manifest_of "com.example.web" false none) { user_name = some "www" }

abbrev calls : relaunchd.Os.Trace
calls =
    Call.execve
    ∷ Call.allocate
    ∷ Call.allocate
    ∷ Call.close_file
    ∷ Call.dup2 2
    ∷ Call.open_file "/dev/null"
    ∷ Call.close_file
    ∷ Call.dup2 1
    ∷ Call.open_file "/dev/null"
    ∷ Call.close_file
    ∷ Call.dup2 0
    ∷ Call.open_file "/dev/null"
    ∷ Call.setuid 8
    ∷ Call.setgid 7
    ∷ Call.initgroups "www" 7
    ∷ Call.setsid
    ∷ Call.umask 18
    ∷ []

executed : start_child_process (system (pos 42)) user_manifest context [] ≡ (ok none, calls)
unfolding start_child_process attempt attempt_with become_user replace_fd execute_program
executed = refl

start_child_process-order_example :
    calls
    ≡ Call.execve
      ∷ Call.allocate
      ∷ Call.allocate
      ∷ Call.close_file
      ∷ Call.dup2 2
      ∷ Call.open_file "/dev/null"
      ∷ Call.close_file
      ∷ Call.dup2 1
      ∷ Call.open_file "/dev/null"
      ∷ Call.close_file
      ∷ Call.dup2 0
      ∷ Call.open_file "/dev/null"
      ∷ Call.setuid 8
      ∷ Call.setgid 7
      ∷ Call.initgroups "www" 7
      ∷ Call.setsid
      ∷ Call.umask 18
      ∷ []
start_child_process-order_example =
    start_child_process-order (system (pos 42)) user_manifest context [] calls executed

-- every call fails
abbrev broken : Os
broken = record (system (pos 42)) { child_answer = λ t c. some 1 }

abbrev no_session : ExecStatus
no_session = record {
  error_code = ExecErrorCode.create_session_failed;
  saved_errno = 1;
  error_context = ErrorContext.child_process;
}

abbrev cleaned : Result (Unit {0})
cleaned = ok tt

child_reported : run_child broken true true cleaned user_manifest context [] ≡ ok (no_session ∷ [])
unfolding run_child start_child_process attempt
child_reported = refl

run_child-received_example : (takes_for_started ReadFault.none_at_all (no_session ∷ []) ≡ true) ↔ (
    (ReadFault.none_at_all ≡ ReadFault.none_at_all)
    × ((cleaned ≡ ok tt) ⊎ (true ≡ false))
    × (((start_child_process broken user_manifest context []).0 ≡ ok none) ⊎ (true ≡ false)))
run_child-received_example =
    run_child-received broken user_manifest context [] ReadFault.none_at_all true true cleaned
      (no_session ∷ []) child_reported
