-- ===== src/Tests/Reached.antt =====
-- The invariant of the manager at concrete runs, and a start that throws.
use relaunchd.Prelude.Assoc.{contains}
use relaunchd.Prelude.{string_eq, String, true, ◌≡◌, refl, false, none, some, [], ◌∷◌}
use relaunchd.StateFile.{StateFile, Disk, found_on, new_state_file, set_value}
use relaunchd.Manager.Reopened.{new_state_file-override_enabled}
use relaunchd.Prelude.Exec.{err, throw, system_error, assertion_failed}
use relaunchd.Job.{is_disabled, new_job}
use relaunchd.Job.Machine.{fire as job_fire}
use relaunchd.Job.Timer.{schedule_periodic_job}
use relaunchd.StateFile.Overrides.{override_of, entry_of, override_job_enabled, with_override, edit}
use relaunchd.Event.{add_timer}
use relaunchd.Manager.{
  Manager, ManagerState, ManagerTrigger, Daemon, start_all_jobs, start_each, start_pending,
  with_job, job_exists,
}
use relaunchd.Manager.Load.{load_manifest, override_enabled}
use relaunchd.Manager.Unload.{unload_label}
use relaunchd.Manager.Machine.{fire, new_manager}
use relaunchd.Manager.Consistent.{IsConsistent}
use relaunchd.Manager.Consistent.Reached.{
  Reached, opened, turned, fired, loaded, unloaded, Reached-IsConsistent,
}
use relaunchd.Manager.Retried.{labels, first_label, start_all_jobs-again}
use relaunchd.Program.Launchd.{launchd_main}
use relaunchd.Program.Launchd.Consistent.{IsKept, launchd_main-IsKept}
use relaunchd.Tests.Values.{Value, json, json_laws, find, has}
use relaunchd.Tests.Systems.{document, kernel, platform, no_events, listening, saved, manifest_of}
use relaunchd.Tests.Managers.{daemon, manifest_json, manager_in}
use relaunchd.Tests.Daemon.{ending, grants, at_start}

abbrev started : Manager Unit Value
started =
    (fire daemon ManagerTrigger.start_requested (new_manager daemon no_events listening saved)).1

abbrev with_new : Manager Unit Value
with_new = (load_manifest daemon manifest_json "new.json" false false started).1

abbrev with_new_started : Manager Unit Value
with_new_started = (fire daemon ManagerTrigger.start_requested with_new).1

abbrev opened_daemon : Reached daemon (new_manager daemon no_events listening saved)
unfolding new_state_file
opened_daemon =
    opened no_events listening (record { exists = false; parse = err system_error }) none
      "state.json" document saved refl

-- the daemon starts, a job is loaded, started and asked to unload
Reached-IsConsistent_example :
    IsConsistent (unload_label daemon "com.example.new" false false with_new_started).1
Reached-IsConsistent_example = Reached-IsConsistent daemon (
    turned
      (turned
        (turned (turned opened_daemon (fired ManagerTrigger.start_requested))
          (loaded manifest_json "new.json" false false))
        (fired ManagerTrigger.start_requested))
      (unloaded "com.example.new" false false))

launchd_main-IsKept_example : IsKept (launchd_main grants ending 2 1 (b'b' ∷ b'd' ∷ []) at_start).1
launchd_main-IsKept_example =
    launchd_main-IsKept grants ending 2 1 (b'b' ∷ b'd' ∷ []) at_start no_events listening saved refl
      refl

-- the kernel has no timer left
abbrev no_timers : Daemon Unit Value
no_timers = record daemon {
  platform = record platform {
    kernel = record kernel { monitor_timer = λ n m. throw system_error };
  };
}

abbrev periodic_pending : Manager Unit Value
periodic_pending = record (manager_in ManagerState.running []) {
  pending_jobs =
      ("com.example.tick", some (new_job none (manifest_of "com.example.tick" false (some 5))))
      ∷ [];
}

no_timer : (start_all_jobs no_timers periodic_pending).0 ≡ err system_error
unfolding start_all_jobs start_each start_pending with_job job_exists job_fire is_disabled
    override_of entry_of find has new_job schedule_periodic_job add_timer
no_timer = refl

start_all_jobs-again_example :
    let t = (start_all_jobs no_timers periodic_pending).1 in
    (labels t.pending_jobs ≡ labels periodic_pending.pending_jobs)
    × ((label : String) × (first_label t.pending_jobs ≡ some label)
        × (contains label t.jobs ≡ true))
    × (start_all_jobs no_timers t ≡ (err assertion_failed, t))
start_all_jobs-again_example =
    start_all_jobs-again no_timers periodic_pending system_error no_timer refl

-- the daemon disables a job and is started again
abbrev disabling : Manager Unit Value
disabling =
    (override_enabled daemon "com.example.new" false
      (new_manager daemon no_events listening saved)).1

abbrev reopened_file : StateFile Value
reopened_file = record {
  data_path = "state.json";
  default_value = document;
  current_value = disabling.state_file.current_value;
  on_disk = Disk.written disabling.state_file.current_value;
}

new_state_file-override_enabled_example :
    override_of json "com.example.web" reopened_file.current_value
    ≡ override_of json "com.example.web" document
unfolding new_state_file override_enabled override_job_enabled with_override edit set_value has find
    new_manager found_on
new_state_file-override_enabled_example =
    new_state_file-override_enabled daemon json_laws (new_manager daemon no_events listening saved)
      "com.example.new" "com.example.web" false none "state.json" document reopened_file refl refl
      refl
