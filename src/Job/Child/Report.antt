-- ===== src/Job/Child/Report.antt =====
-- What Job::run of src/job.cc learns from its child.
use relaunchd.Prelude.{◌≡◌, ◌≢◌, Bool, true, false, none, some, List, ◌↔◌, ◌⊎◌, arith}
use relaunchd.Prelude.Exec.{Error, Result, ok, err, returned, threw, outcome}
use relaunchd.ExecStatus.{ExecStatus, is_success, read_status}
use relaunchd.Os.{Os, Trace}
use relaunchd.Manifest.{Manifest}
use relaunchd.Job.Process.{ExecutionContext}
use relaunchd.Job.Child.{ReadFault, start_child_process, run_child, received}
use relaunchd.Job.Child.Order.{start_child_process-failure}

-- the parent takes the child for one that runs its program
abbrev pub takes_for_started : ReadFault → List ExecStatus → Bool
takes_for_started fault messages = is_success (read_status (received fault messages)).error_code

module _ (os : Os) (m : Manifest) (ctx : ExecutionContext) (t : Trace) where
  -- a child that was replaced by its program
  report_replaced :
      (fault : ReadFault) (first second : Bool) (cleanup : Result Unit) (messages : List ExecStatus)
      → (start_child_process os m ctx t).0 ≡ ok none
      → run_child os first second cleanup m ctx t ≡ ok messages
      → (takes_for_started fault messages ≡ true)
        ↔ ((fault ≡ ReadFault.none_at_all) × ((cleanup ≡ ok tt) ⊎ (first ≡ false)))
  unfolding run_child read_status
  report_replaced fault first second cleanup messages s h = ground arith

  -- a child that failed
  report_failed :
      (fault : ReadFault) (first second : Bool) (cleanup : Result Unit) (status : ExecStatus)
      (messages : List ExecStatus)
      → (start_child_process os m ctx t).0 ≡ ok (some status)
      → run_child os first second cleanup m ctx t ≡ ok messages
      → (takes_for_started fault messages ≡ true) ↔ (
          (fault ≡ ReadFault.none_at_all)
          × ((cleanup ≡ ok tt) ⊎ (first ≡ false))
          × (second ≡ false))
  unfolding run_child read_status
  report_failed fault first second cleanup status messages s h =
      let f = start_child_process-failure os m ctx t status s in ground arith

  report_threw :
      (first second : Bool) (cleanup : Result Unit) (x : Error) (messages : List ExecStatus)
      → (start_child_process os m ctx t).0 ≡ err x
      → run_child os first second cleanup m ctx t ≢ ok messages
  unfolding run_child
  report_threw first second cleanup x messages s h = absurd (ground (arith, s, h))

  -- If no exception leaves the child, the parent takes it for one that runs its program if and only if
  -- its read of the pipe neither fails nor is short, the cleanup after `fork` did not throw or the
  -- message on it could not be written, and `execve` replaced the child or the message on its failure
  -- could not be written.
  pub run_child-received :
      (fault : ReadFault) (first second : Bool) (cleanup : Result Unit) (messages : List ExecStatus)
      → run_child os first second cleanup m ctx t ≡ ok messages
      → (takes_for_started fault messages ≡ true) ↔ (
          (fault ≡ ReadFault.none_at_all)
          × ((cleanup ≡ ok tt) ⊎ (first ≡ false))
          × (((start_child_process os m ctx t).0 ≡ ok none) ⊎ (second ≡ false)))
  run_child-received fault first second cleanup messages h =
      elim (outcome (start_child_process os m ctx t).0) [
        | returned none s ↦
            ground (arith, s, report_replaced fault first second cleanup messages s h)
        | returned (some status) s ↦
            ground (arith, s, report_failed fault first second cleanup status messages s h)
        | threw x s ↦ absurd (report_threw first second cleanup x messages s h)
      ]
