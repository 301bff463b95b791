-- ===== src/Tests/Restarts.antt =====
-- A job that comes back, and one that cannot be run, at concrete inputs.
use relaunchd.Prelude.{◌≡◌, refl, true, false, none, string_eq, nat_eq}
use relaunchd.Job.Process.{execution_context}
use relaunchd.Prelude.Exec.{ok}
use relaunchd.Prelude.Int.{pos}
use relaunchd.ExecStatus.{PipeRead, read_status}
use relaunchd.StateFile.Overrides.{override_of, entry_of}
use relaunchd.Event.{WaitStatus, add_timer, get_next_timer_id, next_timer_id}
use relaunchd.Job.{Sys, Platform, States, Triggers, is_disabled, new_job}
use relaunchd.Job.Process.{kill_process_group, kill_loop, reap_child_process, record_status}
use relaunchd.Job.Timer.{start_after_throttle_interval}
use relaunchd.Job.Machine.{fire, unload_job, on_process_event}
use relaunchd.Job.Restarted.{ComesBack, on_process_event-ComesBack}
use relaunchd.Job.Unstarted.{FailsToRun, failed_start-unload_job}
use relaunchd.Tests.Values.{Value, find, has}
use relaunchd.Tests.Systems.{platform, no_events, manifest_of, loaded_job, running_job, system}

-- a system whose clock stands still
abbrev still : Platform Unit Value
still = record platform { os = record (system (pos 42)) { clock = λ t. 0 } }

abbrev kept : Sys Unit Value
kept = running_job "com.example.kept" true false

kept_reaped : (reap_child_process still (WaitStatus.exited 1) kept).0 ≡ ok tt
unfolding reap_child_process record_status kill_process_group kill_loop
kept_reaped = refl

abbrev reaped : Sys Unit Value
reaped = (reap_child_process still (WaitStatus.exited 1) kept).1

on_process_event-ComesBack_example :
    let (r, t) = on_process_event still (WaitStatus.exited 1) kept in
    (r ≡ ok tt) × ComesBack still true reaped t
unfolding reap_child_process record_status kill_process_group kill_loop
    start_after_throttle_interval add_timer get_next_timer_id next_timer_id
on_process_event-ComesBack_example =
    on_process_event-ComesBack still true (WaitStatus.exited 1) kept 0 kept_reaped refl refl refl
      refl (refl, refl) refl

-- a system on which the child does not get as far as its program
abbrev broken : Platform Unit Value
broken = record platform { os = record (system (pos 42)) { pipe_read = λ t. PipeRead.short_read } }

abbrev fresh : Sys Unit Value
fresh = loaded_job (manifest_of "com.example.web" false none)

fresh_enabled : is_disabled broken fresh ≡ (ok false, fresh)
unfolding is_disabled override_of entry_of find has new_job
fresh_enabled = refl

never_runs : FailsToRun broken fresh 41
unfolding read_status
never_runs = record { piped = refl; forked = refl; failed = refl }

failed_start-unload_job_example :
    let t = (fire broken Triggers.start_requested fresh).1 in
    let (answer, u) = unload_job broken true t in
    (t.job.state ≡ States.running)
    × (t.job.pid ≡ pos 0)
    × (t.events ≡ no_events)
    × (answer ≡ ok true)
    × (u ≡ record t { job = record t.job { unload_requested = true } })
    × (unload_job broken false u ≡ (ok false, u))
unfolding new_job execution_context
failed_start-unload_job_example =
    failed_start-unload_job broken fresh 41 (record { gid = none; uid = none }) true false refl refl
      refl never_runs fresh_enabled
