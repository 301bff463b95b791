-- ===== src/Manager/Loop.antt =====
-- src/manager.cc: the callbacks of the events, and the main loop of the manager.
use relaunchd.Prelude.{
  ℕ, zero, suc, String, Bool, true, false, not, Option, none, some, is_empty, if◌then◌else◌,
}
use relaunchd.Prelude.Exec.{
  Exec, ok, err, pure, throw, gets, ◌>>=◌, ◌>>◌, undefined_behaviour, logic_error, never_returned,
}
use relaunchd.Event.{WaitStatus, ProcessCallback, TimerCallback}
use relaunchd.Event.Dispatch.{Handlers, wait_for_event}
use relaunchd.Job.{Sys}
use relaunchd.Job.Machine.{on_process_event, on_restart_timer, on_periodic_timer}
use relaunchd.Manager.{Manager, ManagerState, ManagerTrigger, ManagerResult, Daemon, with_job}
use relaunchd.Manager.Machine.{fire, same_state, on_signal, delete_job}
use relaunchd.Rpc.Server.{rpc_dispatch}

module _ {I J : Type 0} (d : Daemon I J) where
  open d use {platform}

  -- The callbacks of a job hold a pointer to it, which dangles once the job is deleted.
  abbrev pub in_job : {A : Type 0} → String → Exec (Sys I J) A → Exec (Manager I J) A
  in_job = with_job (throw undefined_behaviour)

  abbrev pub on_process : ProcessCallback → WaitStatus → Exec (Manager I J) Unit
  on_process (ProcessCallback.job_process label) status =
      in_job label (on_process_event platform status)

  abbrev pub on_timer : TimerCallback → Exec (Manager I J) Unit
  on_timer (TimerCallback.restart_throttled label) = in_job label (on_restart_timer platform)
  on_timer (TimerCallback.start_periodic label) = in_job label (on_periodic_timer platform)

  abbrev pub handlers : Handlers I (Manager I J)
  handlers = record {
    get = λ s. s.eventmgr;
    put = λ e s. record s { eventmgr = e };
    on_ipc = λ callback. delete_job d;
    on_signal = λ callback signum. on_signal d callback;
    on_process = λ callback pid. on_process callback;
    on_socket = λ callback sockfd. rpc_dispatch d >> pure tt;
    on_timer = on_timer;
  }

  abbrev pub wait : Option ℕ → Exec (Manager I J) Unit
  wait = wait_for_event platform.kernel handlers

  -- the `switch` of handleEvent
  unfoldable pub handle_in : ManagerState → Option ℕ → Exec (Manager I J) Unit
  handle_in ManagerState.unconfigured timeout s = (err logic_error, s)
  handle_in ManagerState.running timeout s = wait timeout s
  handle_in ManagerState.graceful_shutdown timeout s =
      if is_empty s.jobs
      then (fire d ManagerTrigger.all_jobs_exited >> pure tt) s
      else wait (some 500) s
  handle_in ManagerState.finished timeout s = (ok tt, s)

  -- Manager::handleEvent
  unfoldable pub handle_event : Option ℕ → Exec (Manager I J) Bool
  handle_event timeout = do
    current ← gets (λ s. s.state)
    handle_in current timeout
    gets (λ s. not (same_state s.state ManagerState.finished))

  -- the loop of runMainLoop, on fuel
  unfoldable pub main_loop : ℕ → Exec (Manager I J) ManagerResult
  main_loop zero = throw never_returned
  main_loop (suc fuel) = handle_event none >>= λ more. elim more [
    | true ↦ main_loop fuel
    | false ↦ gets (λ s. s.pending_result)
  ]

  -- Manager::runMainLoop
  unfoldable pub run_main_loop : ℕ → Exec (Manager I J) ManagerResult
  unfolding main_loop
  run_main_loop fuel s =
      if same_state s.state ManagerState.running then main_loop fuel s else (err logic_error, s)

  -- Manager::runOnce
  unfoldable pub run_once : Option ℕ → Exec (Manager I J) Bool
  unfolding handle_event
  run_once timeout s =
      if same_state s.state ManagerState.running
      then handle_event timeout s
      else (err logic_error, s)
