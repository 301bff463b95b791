-- ===== src/Tests/Jobs.antt =====
-- The theorems on jobs at concrete inputs.
use relaunchd.Prelude.{arith, ◌≡◌, refl, true, false, none, some, [], ◌∷◌, string_eq, nat_eq}
use relaunchd.Job.Process.{execution_context}
use relaunchd.Prelude.Exec.{ok}
use relaunchd.Prelude.Int.{pos, minus_one}
use relaunchd.StateFile.Overrides.{override_of, entry_of}
use relaunchd.Event.{WaitStatus, submit_ipc_callback}
use relaunchd.Os.{Call, Errno}
use relaunchd.Job.{Sys, States, Triggers, is_disabled, new_job}
use relaunchd.Job.Process.{
  kill_process_group, kill_loop, reap_child_process, record_status, sigterm,
}
use relaunchd.Job.Group.{rounds, Drains, kill_process_group-Drains}
use relaunchd.Job.Machine.{fire, unload_job, on_process_event, live, Happening}
use relaunchd.Job.Machine.Step.{step, fire-step}
use relaunchd.Job.Machine.Final.{unload_job-once, unload_job-refused}
use relaunchd.Job.Lifecycle.{on_process_event-unloads, failed_fork-unload_job}
use relaunchd.Tests.Values.{Value, find, has}
use relaunchd.Tests.Systems.{
  kernel, platform, exhausted, no_events, manifest_of, loaded_job, running_job, system,
}

abbrev kept : Sys Unit Value
kept = running_job "com.example.kept" true false

fire-step_example :
    fire platform Triggers.process_exited kept
    ≡ step platform States.running Triggers.process_exited kept
fire-step_example = fire-step platform Triggers.process_exited kept

abbrev leaving : Sys Unit Value
leaving = running_job "com.example.web" true true

leaving_reaped : (reap_child_process platform (WaitStatus.exited 0) leaving).0 ≡ ok tt
unfolding reap_child_process record_status kill_process_group kill_loop
leaving_reaped = refl

on_process_event-unloads_example :
    let (r, t) = on_process_event platform (WaitStatus.exited 0) leaving in
    (r ≡ ok tt)
    × (t.job.state ≡ States.unloaded)
    × (t.job.pid ≡ pos 0)
    × (t.events ≡ (submit_ipc_callback kernel "delete_job" "com.example.web" no_events).1)
on_process_event-unloads_example =
    on_process_event-unloads platform (WaitStatus.exited 0) leaving leaving_reaped refl refl refl

abbrev web : Sys Unit Value
web = running_job "com.example.web" false false

unload_job-once_example :
    let later =
      live platform
        (Happening.process_event (WaitStatus.exited 0) ∷ [])
        (unload_job platform true web).1 in
    unload_job platform false later ≡ (ok false, later)
unload_job-once_example =
    unload_job-once platform web true false (Happening.process_event (WaitStatus.exited 0) ∷ [])

abbrev off : Sys Unit Value
off = running_job "com.example.off" false false

off_disabled : is_disabled platform off ≡ (ok true, off)
unfolding is_disabled override_of entry_of find has
off_disabled = refl

unload_job-refused_example :
    let (first, t) = unload_job platform false off in
    let later = live platform (Happening.process_event (WaitStatus.exited 0) ∷ []) t in
    (first ≡ ok false) × (unload_job platform true later ≡ (ok false, later))
unload_job-refused_example =
    unload_job-refused platform off (Happening.process_event (WaitStatus.exited 0) ∷ []) true
      off_disabled

abbrev gone : Sys Unit Value
gone = record web { job = record web.job { state = States.unloaded } }

web-Drains : Drains (system (pos 42)) (pos 42) 1 Errno.echild []
unfolding Drains
web-Drains = (refl, refl, (refl, refl))

kill_process_group-Drains_example :
    kill_process_group platform web ≡ (ok true, record web { trace = rounds 2 (pos 42) [] })
kill_process_group-Drains_example =
    kill_process_group-Drains platform 1 Errno.echild web refl refl (omega arith) web-Drains

abbrev waiting : Sys Unit Value
waiting = record web { job = record web.job { state = States.waiting; timer_id = some 1 } }

abbrev fresh : Sys Unit Value
fresh = loaded_job (manifest_of "com.example.web" false none)

fresh_enabled : is_disabled exhausted fresh ≡ (ok false, fresh)
unfolding is_disabled override_of entry_of find has new_job
fresh_enabled = refl

failed_fork-unload_job_example :
    let t = (fire exhausted Triggers.start_requested fresh).1 in
    let (answer, u) = unload_job exhausted true t in
    (t.job.state ≡ States.running)
    × (answer ≡ ok true)
    × (u.job.state ≡ States.running)
    × (u.trace ≡ Call.kill minus_one sigterm ∷ t.trace)
unfolding new_job execution_context
failed_fork-unload_job_example =
    failed_fork-unload_job exhausted fresh (record { gid = none; uid = none }) true refl refl refl
      refl refl fresh_enabled
