-- ===== src/Tests/Managers.antt =====
-- The theorems on the manager at concrete inputs.
use relaunchd.Prelude.{
  String, ◌≡◌, refl, Bool, true, false, Option, none, some, List, [], ◌∷◌, string_eq,
}
use relaunchd.Prelude.Assoc.{lookup, contains}
use relaunchd.Prelude.Int.{pos, int_eq}
use relaunchd.Prelude.Exec.{ok, pure}
use relaunchd.Manager.{start_all_jobs, start_each, start_pending, with_job, job_exists}
use relaunchd.Manager.Started.{start_all_jobs-adds}
use relaunchd.Job.{is_disabled, new_job}
use relaunchd.Job.Machine.{fire as job_fire}
use relaunchd.Domain.{BuildConfig, DomainType}
use relaunchd.StateFile.Overrides.{override_of, entry_of}
use relaunchd.Manager.Loop.{run_main_loop}
use relaunchd.Manager.Stopped.{Signalled, run_main_loop-stops}
use relaunchd.Prelude.Int.{is_negative}
use relaunchd.Event.{
  SignalCallback, Event, WaitStatus, ProcessCallback, IpcCallback, EventManager, delete_process,
}
use relaunchd.Job.Timer.{cancel_any_timer}
use relaunchd.Event.Dispatch.{dispatch}
use relaunchd.Manifest.{
  Manifest, from_json, has_slash, steps, run_steps, finish, read, refuse, new_label, rectify,
  validate,
}
use relaunchd.StateFile.Overrides.{override_of, entry_of}
use relaunchd.Job.{Job, States}
use relaunchd.Job.Process.{reap_child_process, record_status, kill_process_group, kill_loop}
use relaunchd.Job.Machine.{force_unload_job, kill_now}
use relaunchd.Manager.{
  Manager, ManagerState, ManagerResult, Daemon, Found, view, with_job, job_exists,
}
use relaunchd.Manager.Load.{load_manifest, load_read, load_new, is_shutting_down}
use relaunchd.Manager.Unload.{
  unload_all_jobs, force_unload_all_jobs, unload_each, unload_one, force_each,
}
use relaunchd.Manager.Machine.{handle_shutdown_signal}
use relaunchd.Manager.Loop.{handlers}
use relaunchd.Job.Machine.Final.{Refuses}
use relaunchd.Manager.Asked.{unload_all_jobs-IsAsked}
use relaunchd.Manager.Shutdown.{handle_shutdown_signal-forced}
use relaunchd.Manager.Loaded.{Loads, load_manifest-Loads}
use relaunchd.Manager.Removed.{IgnoresProcesses, dispatch-exited}
use relaunchd.Tests.Values.{Value, object, entry, nil, text, json, find, has}
use relaunchd.Tests.Systems.{
  net_with, text_of, listening, manifest_of, kernel, platform, no_events, document, saved,
  running_job,
}

abbrev build_config : BuildConfig
build_config = record {
  pkgstatedir = "/var/lib/relaunchd";
  system_agent_load_path = "/usr/share/launchd/agents";
  system_daemon_load_path = "/usr/share/launchd/daemons";
  user_agent_load_path = "/etc/launchd/user";
  vendor_agent_load_path = "/etc/launchd/agents";
  vendor_daemon_load_path = "/etc/launchd/daemons";
}

abbrev pub daemon : Daemon Unit Value
daemon = record {
  platform = platform;
  config = build_config;
  domain = record { dtype = DomainType.system; statedir = "/var/lib/relaunchd" };
  find = λ path. Found.absent;
  reader = record {
    xml_support = false;
    load_file = λ path. none;
    parse_file = λ path. ok document;
    null = object nil;
  };
  net = net_with [];
  text = text_of (text "hello");
  version = "1.0";
}

abbrev web_job : Bool → Job
web_job unload = (running_job "com.example.web" false unload).job

abbrev events : EventManager Unit
events = record no_events {
  process_callbacks = (pos 42, ProcessCallback.job_process "com.example.web") ∷ [];
  ipc_callbacks = ("delete_job", IpcCallback.delete_job) ∷ [];
}

abbrev pub manager_in : ManagerState → List (String × Job) → Manager Unit Value
manager_in state jobs = record {
  pending_jobs = [];
  jobs = jobs;
  eventmgr = events;
  chan = listening;
  state_file = saved;
  state = state;
  pending_result = ManagerResult.exit;
  trace = [];
}

abbrev pub with_web : ManagerState → Bool → Manager Unit Value
with_web state unload = manager_in state (("com.example.web", web_job unload) ∷ [])

asked_all : (unload_all_jobs daemon (with_web ManagerState.running false)).0 ≡ ok true
unfolding unload_all_jobs unload_each unload_one relaunchd.Job.Machine.unload_job is_disabled
    override_of find has job_fire relaunchd.Job.Process.kill_job
asked_all = refl

unload_all_jobs-IsAsked_example :
    (job : Job) × (lookup "com.example.web"
        (unload_all_jobs daemon (with_web ManagerState.running false)).1.jobs
      ≡ some job)
    × Refuses job
unfolding lookup
unload_all_jobs-IsAsked_example =
    unload_all_jobs-IsAsked daemon (with_web ManagerState.running false) true "com.example.web"
      asked_all refl

forced : (force_unload_all_jobs daemon (with_web ManagerState.graceful_shutdown true)).0 ≡ ok tt
unfolding force_unload_all_jobs force_each with_job force_unload_job kill_now kill_process_group
    kill_loop delete_process cancel_any_timer
forced = refl

handle_shutdown_signal-forced_example :
    let (r, t) = handle_shutdown_signal daemon (with_web ManagerState.graceful_shutdown true) in
    (r ≡ ok tt) × (t.jobs ≡ []) × (t.state ≡ ManagerState.finished)
handle_shutdown_signal-forced_example =
    handle_shutdown_signal-forced daemon (with_web ManagerState.graceful_shutdown true) refl forced

abbrev pub manifest_json : Value
manifest_json =
    object (entry "Label" (text "com.example.new") (entry "Program" (text "/bin/true") nil))

new_loaded :
    (load_manifest daemon manifest_json "new.json" false false
      (with_web ManagerState.running false)).0
    ≡ ok true
unfolding load_manifest load_read load_new override_of entry_of from_json finish run_steps steps
    read refuse rectify validate new_label has_slash find has
new_loaded = refl

load_manifest-Loads_example :
    (is_shutting_down ManagerState.running ≡ false)
    × ((m : Manifest) × (from_json json manifest_json ≡ ok m)
        × (job_exists m.label.value (with_web ManagerState.running false) ≡ false)
        × (contains {V = Option Job} m.label.value [] ≡ false)
        × Loads daemon "new.json" false m
            (with_web ManagerState.running false)
            (load_manifest daemon manifest_json "new.json" false false
              (with_web ManagerState.running false)).1)
load_manifest-Loads_example =
    load_manifest-Loads daemon manifest_json "new.json" false false
      (with_web ManagerState.running false) new_loaded

ignores : IgnoresProcesses kernel
ignores = record { returns = λ pid k. refl; keeps_events = λ pid k. refl }

exit_reaped :
    (reap_child_process platform
      (WaitStatus.exited 0)
      (view (web_job true) (with_web ManagerState.running true))).0
    ≡ ok tt
unfolding reap_child_process record_status kill_process_group kill_loop
exit_reaped = refl

dispatch-exited_example :
    let (r, t) =
      dispatch kernel
        (handlers daemon)
        (Event.proc_event (pos 42) (WaitStatus.exited 0))
        (with_web ManagerState.running true) in
    (r ≡ ok tt)
    × (lookup (pos 42) t.eventmgr.process_callbacks ≡ none)
    × ((j : Job) × (lookup "com.example.web" t.jobs ≡ some j)
        × (j.state ≡ States.unloaded)
        × (j.pid ≡ pos 0))
    × (t.eventmgr.impl.pending_events ≡ Event.ipc_event "delete_job" "com.example.web" ∷ [])
unfolding lookup
dispatch-exited_example =
    dispatch-exited daemon (pos 42) (WaitStatus.exited 0) "com.example.web" (web_job true)
      (with_web ManagerState.running true) ignores refl refl refl refl refl exit_reaped

abbrev pub one_pending : Manager Unit Value
one_pending = record (manager_in ManagerState.running []) {
  pending_jobs =
      ("com.example.new", some (new_job none (manifest_of "com.example.new" false none))) ∷ [];
}

pending_started : (start_all_jobs daemon one_pending).0 ≡ ok tt
unfolding start_all_jobs start_each start_pending with_job job_exists job_fire is_disabled
    override_of entry_of find has new_job
pending_started = refl

start_all_jobs-adds_example :
    let t = (start_all_jobs daemon one_pending).1 in
    (t.pending_jobs ≡ []) × ((contains "com.example.new" t.jobs ≡ true) × Unit {0})
start_all_jobs-adds_example = start_all_jobs-adds daemon one_pending pending_started

-- a kernel that reports SIGTERM
abbrev terminating : Daemon Unit Value
terminating = record daemon {
  platform = record platform {
    kernel = record kernel { wait_for_event = λ t. pure (some (Event.signal_event 15)) };
  };
}

abbrev idle : Manager Unit Value
idle = record (manager_in ManagerState.running []) {
  eventmgr = record events { signal_callbacks = (15, SignalCallback.shutdown_single_user) ∷ [] };
  chan = listening;
}

signalled : Signalled terminating idle 15 SignalCallback.shutdown_single_user no_events.impl
unfolding lookup
signalled = record { reported = refl; registered = refl; not_ignored = λ h. cc }

run_main_loop-stops_example :
    let (r, t) = run_main_loop terminating 2 idle in
    (r ≡ ok ManagerResult.single_user_mode)
    × (t.state ≡ ManagerState.finished)
    × (t.jobs ≡ [])
    × (is_negative t.chan.sockfd ≡ true)
run_main_loop-stops_example =
    run_main_loop-stops terminating 0 idle 15 SignalCallback.shutdown_single_user no_events.impl
      refl refl signalled
