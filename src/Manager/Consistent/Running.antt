-- ===== src/Manager/Consistent/Running.antt =====
-- src/manager.cc: the state machine of the manager, the callbacks of the events, the requests and the
-- main loop keep the jobs of the manager consistent.
use relaunchd.Prelude.{String, string_eq, is_empty}
use relaunchd.Prelude.Exec.{Exec, ok, modify, pure, ◌>>◌}
use relaunchd.Prelude.Exec.Preserves.{
  Preserves, preserves_rules, Preserves->>=, Preserves-read, Preserves-test,
}
use relaunchd.Event.{EventManager, SignalCallback}
use relaunchd.Fsm.{FsmStatus}
use relaunchd.Manager.{Manager, ManagerState, ManagerTrigger, ManagerResult, Daemon, start_all_jobs}
use relaunchd.Manager.Unload.{unload_all_jobs, force_unload_all_jobs}
use relaunchd.Manager.Machine.{
  in_events, setup_signal_handlers, start_rpc_server, stop_listening, start_up, fire,
  handle_shutdown_signal, shut_down, on_signal, delete_job, destroy,
}
use relaunchd.Manager.Machine.Step.{manager_step, fire-manager_step, into, put_state}
use relaunchd.Manager.Consistent.{IsConsistent, in_channel-Preserves, erase-Consistent}
use relaunchd.Manager.Consistent.Loading.{load_default_manifests-Preserves}
use relaunchd.Manager.Consistent.Starting.{start_all_jobs-Preserves}
use relaunchd.Manager.Consistent.Unloading.{
  unload_all_jobs-Preserves, force_unload_all_jobs-Preserves,
}

module _ {I J : Type 0} (d : Daemon I J) where
  in_events-Preserves :
      {A : Type 0} (m : Exec (EventManager I) A) → Preserves IsConsistent (in_events d m)
  in_events-Preserves m = record { holds = λ s c. c }

  setup_signal_handlers-Preserves : Preserves IsConsistent (setup_signal_handlers d)
  unfolding setup_signal_handlers
  setup_signal_handlers-Preserves = in_events-Preserves _

  start_rpc_server-Preserves : Preserves IsConsistent (start_rpc_server d)
  unfolding start_rpc_server
  start_rpc_server-Preserves = search (preserves_rules, in_channel-Preserves, in_events-Preserves)

  start_up-Preserves : Preserves IsConsistent (start_up d)
  start_up-Preserves = search (
    preserves_rules, setup_signal_handlers-Preserves, start_rpc_server-Preserves,
    load_default_manifests-Preserves, start_all_jobs-Preserves,
  )

  put_state-Preserves :
      (st : ManagerState)
      → Preserves IsConsistent (λ (s : Manager I J). (ok FsmStatus.success, put_state d st s))
  put_state-Preserves st = record { holds = λ s c. c }

  leave-Preserves : Preserves IsConsistent (stop_listening d >> (unload_all_jobs d >> pure tt))
  leave-Preserves = search (preserves_rules, in_channel-Preserves, unload_all_jobs-Preserves)

  into-Preserves :
      (st : ManagerState) (action : Exec (Manager I J) Unit)
      → Preserves IsConsistent action
      → Preserves IsConsistent (into d st action)
  into-Preserves st action p = Preserves->>= action _ p (λ _. put_state-Preserves st)

  manager_step-Preserves :
      (st : ManagerState) (t : ManagerTrigger) → Preserves IsConsistent (manager_step d st t)
  unfolding manager_step
  manager_step-Preserves ManagerState.unconfigured ManagerTrigger.start_requested =
      into-Preserves ManagerState.running (start_up d) start_up-Preserves
  manager_step-Preserves ManagerState.running ManagerTrigger.start_requested =
      Preserves-test (λ s. is_empty s.pending_jobs) _
        (into d ManagerState.running (start_all_jobs d)) (Preserves-read _)
        (into-Preserves ManagerState.running (start_all_jobs d) (start_all_jobs-Preserves d))
  manager_step-Preserves ManagerState.running ManagerTrigger.stop_requested =
      into-Preserves ManagerState.graceful_shutdown _ leave-Preserves
  manager_step-Preserves ManagerState.unconfigured ManagerTrigger.stop_requested =
      put_state-Preserves ManagerState.finished
  manager_step-Preserves ManagerState.graceful_shutdown ManagerTrigger.stop_requested =
      put_state-Preserves ManagerState.finished
  manager_step-Preserves ManagerState.graceful_shutdown ManagerTrigger.all_jobs_exited =
      put_state-Preserves ManagerState.finished
  manager_step-Preserves _ _ = Preserves-read (λ _. ok FsmStatus.no_matching_trigger)

  pub fire-Preserves : (t : ManagerTrigger) → Preserves IsConsistent (fire d t)
  fire-Preserves t = record {
    holds = λ s c. rw (fire-manager_step d t s) ((manager_step-Preserves s.state t).holds s c);
  }

  finish-Preserves : (t : ManagerTrigger) → Preserves IsConsistent (fire d t >> pure tt)
  finish-Preserves t = search (preserves_rules, fire-Preserves)

  shutdown_in-Preserves :
      (st : ManagerState)
      → Preserves IsConsistent (λ s. handle_shutdown_signal d (put_state d st s))
  unfolding handle_shutdown_signal
  shutdown_in-Preserves ManagerState.unconfigured = record {
    holds = λ s c. (finish-Preserves ManagerTrigger.stop_requested).holds (put_state d _ s) c;
  }
  shutdown_in-Preserves ManagerState.running = record {
    holds = λ s c. (finish-Preserves ManagerTrigger.stop_requested).holds (put_state d _ s) c;
  }
  shutdown_in-Preserves ManagerState.graceful_shutdown = record {
    holds = λ s c.
        (Preserves->>= (force_unload_all_jobs d) _ (force_unload_all_jobs-Preserves d)
            (λ _. finish-Preserves ManagerTrigger.all_jobs_exited)).holds
          (put_state d _ s) c;
  }
  shutdown_in-Preserves ManagerState.finished = record { holds = λ s c. c }

  handle_shutdown_signal-Preserves : Preserves IsConsistent (handle_shutdown_signal d)
  handle_shutdown_signal-Preserves = record {
    holds = λ s c. (shutdown_in-Preserves s.state).holds s c;
  }

  shut_down-Preserves : (result : ManagerResult) → Preserves IsConsistent (shut_down d result)
  shut_down-Preserves result =
      Preserves->>= (modify (λ s. record s { pending_result = result })) _
        (record { holds = λ s c. c }) (λ _. handle_shutdown_signal-Preserves)

  pub on_signal-Preserves :
      (callback : SignalCallback) → Preserves IsConsistent (on_signal d callback)
  unfolding on_signal
  on_signal-Preserves SignalCallback.ignore_signal = search preserves_rules
  on_signal-Preserves _ = shut_down-Preserves _

  pub delete_job-Preserves : (label : String) → Preserves IsConsistent (delete_job d label)
  unfolding delete_job
  delete_job-Preserves label = record {
    holds = λ s c. (erase-Consistent label s.jobs s.pending_jobs c.0, c.1);
  }

  pub destroy-Preserves : Preserves IsConsistent (destroy d)
  unfolding destroy
  destroy-Preserves =
      search (preserves_rules, in_channel-Preserves, force_unload_all_jobs-Preserves)
