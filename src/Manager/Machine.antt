-- ===== src/Manager/Machine.antt =====
-- src/manager.cc: the state machine of the manager, and what signals and callbacks do to it.
pub mod Step
use relaunchd.Prelude.{
  ℕ, zero, suc, String, Bool, true, false, not, Option, none, some, List, [], ◌∷◌, is_empty,
  string_eq, if◌then◌else◌,
}
use relaunchd.Prelude.Assoc.{lookup, erase}
use relaunchd.Prelude.Exec.{
  Exec, Result, ok, err, pure, throw, lift, gets, modify, ◌>>=◌, ◌>>◌, undefined_behaviour,
  logic_error, never_returned,
}
use relaunchd.Prelude.Int.{ℤ}
use relaunchd.Domain.{rpc_sock}
use relaunchd.Channel.{Channel, bind_and_listen, get_sock_fd, unbind_and_stop_listening}
use relaunchd.Fsm.{Trans, Machine, FsmStatus, execute}
use relaunchd.Event.{
  EventManager, WaitStatus, SignalCallback, ProcessCallback, SocketCallback, TimerCallback,
  IpcCallback, add_signal, add_socket_read, add_ipc_method,
}
use relaunchd.Event.Dispatch.{Handlers, wait_for_event}
use relaunchd.Job.Machine.{on_process_event, on_restart_timer, on_periodic_timer}
use relaunchd.Manager.{
  Manager, ManagerState, ManagerTrigger, ManagerResult, Daemon, in_channel, start_all_jobs,
}
use relaunchd.Manager.Load.{load_default_manifests}
use relaunchd.Manager.Unload.{unload_all_jobs, force_unload_all_jobs}

abbrev pub same_state : ManagerState → ManagerState → Bool
same_state ManagerState.unconfigured ManagerState.unconfigured = true
same_state ManagerState.running ManagerState.running = true
same_state ManagerState.graceful_shutdown ManagerState.graceful_shutdown = true
same_state ManagerState.finished ManagerState.finished = true
same_state _ _ = false

abbrev pub same_trigger : ManagerTrigger → ManagerTrigger → Bool
same_trigger ManagerTrigger.start_requested ManagerTrigger.start_requested = true
same_trigger ManagerTrigger.stop_requested ManagerTrigger.stop_requested = true
same_trigger ManagerTrigger.all_jobs_exited ManagerTrigger.all_jobs_exited = true
same_trigger _ _ = false

module _ {I J : Type 0} (d : Daemon I J) where
  open d use {platform}

  abbrev pub in_events : {A : Type 0} → Exec (EventManager I) A → Exec (Manager I J) A
  in_events m s = let (r, e) = m s.eventmgr in (r, record s { eventmgr = e })

  -- Manager::setupSignalHandlers: SIGPIPE, SIGINT, SIGUSR1, SIGUSR2, SIGTERM
  unfoldable pub setup_signal_handlers : Exec (Manager I J) Unit
  unfolding add_signal
  setup_signal_handlers = in_events (do
    add_signal platform.kernel 13 SignalCallback.ignore_signal
    add_signal platform.kernel 2 SignalCallback.shutdown_reboot
    add_signal platform.kernel 10 SignalCallback.shutdown_halt
    add_signal platform.kernel 12 SignalCallback.shutdown_power_down
    add_signal platform.kernel 15 SignalCallback.shutdown_single_user)

  -- Manager::startRpcServer
  unfoldable pub start_rpc_server : Exec (Manager I J) Unit
  unfolding add_socket_read bind_and_listen get_sock_fd
  start_rpc_server = do
    in_channel (bind_and_listen d.net (rpc_sock d.domain) 1024)
    socket ← in_channel get_sock_fd
    in_events (add_socket_read platform.kernel socket SocketCallback.dispatch_rpc)

  abbrev pub machine : Machine ManagerState ManagerTrigger (Manager I J)
  machine = record {
    same_state = same_state;
    same_trigger = same_trigger;
    get = λ s. s.state;
    set = λ st s. record s { state = st };
  }

  abbrev pub transition :
      ManagerState
      → ManagerState
      → ManagerTrigger
      → Exec (Manager I J) Bool
      → Exec (Manager I J) Unit
      → Trans ManagerState ManagerTrigger (Manager I J)
  transition from to t guard action = record {
    from_state = from;
    to_state = to;
    trigger = t;
    guard = some guard;
    action = some action;
  }

  abbrev pub stop_listening : Exec (Manager I J) Unit
  stop_listening = in_channel (unbind_and_stop_listening d.net)

  -- the action of the first start
  abbrev pub start_up : Exec (Manager I J) Unit
  start_up = do setup_signal_handlers; start_rpc_server; load_default_manifests d; start_all_jobs d

  -- the transitions of Manager::initFSM, in order
  unfoldable pub transitions : List (Trans ManagerState ManagerTrigger (Manager I J))
  transitions =
      transition ManagerState.unconfigured ManagerState.finished ManagerTrigger.stop_requested
        (pure true) (pure tt)
      ∷ transition ManagerState.unconfigured ManagerState.running ManagerTrigger.start_requested
          (pure true) start_up
      ∷ transition ManagerState.running ManagerState.running ManagerTrigger.start_requested
          (gets (λ s. not (is_empty s.pending_jobs))) (start_all_jobs d)
      ∷ transition ManagerState.running ManagerState.graceful_shutdown ManagerTrigger.stop_requested
          (pure true) (stop_listening >> (unload_all_jobs d >> pure tt))
      ∷ transition ManagerState.graceful_shutdown ManagerState.finished
          ManagerTrigger.stop_requested (pure true) (pure tt)
      ∷ transition ManagerState.graceful_shutdown ManagerState.finished
          ManagerTrigger.all_jobs_exited (pure true) (pure tt)
      ∷ []

  -- `fsm.execute(t)`; startRunning and stopRunning are its two requests
  unfoldable pub fire : ManagerTrigger → Exec (Manager I J) FsmStatus
  unfolding transitions execute
  fire t = execute machine transitions t

  -- Manager::handleShutdownSignal
  unfoldable pub handle_shutdown_signal : Exec (Manager I J) Unit
  handle_shutdown_signal s = elim s.state [
    | ManagerState.unconfigured ↦ (fire ManagerTrigger.stop_requested >> pure tt) s
    | ManagerState.graceful_shutdown ↦
        (force_unload_all_jobs d >> (fire ManagerTrigger.all_jobs_exited >> pure tt)) s
    | ManagerState.running ↦ (fire ManagerTrigger.stop_requested >> pure tt) s
    | ManagerState.finished ↦ (ok tt, s)
  ]

  abbrev pub shut_down : ManagerResult → Exec (Manager I J) Unit
  shut_down result = modify (λ s. record s { pending_result = result }) >> handle_shutdown_signal

  -- the lambdas of setupSignalHandlers
  unfoldable pub on_signal : SignalCallback → Exec (Manager I J) Unit
  on_signal SignalCallback.ignore_signal = pure tt
  on_signal SignalCallback.shutdown_reboot = shut_down ManagerResult.reboot
  on_signal SignalCallback.shutdown_halt = shut_down ManagerResult.halt
  on_signal SignalCallback.shutdown_power_down = shut_down ManagerResult.halt_and_power_down
  on_signal SignalCallback.shutdown_single_user = shut_down ManagerResult.single_user_mode

  -- the lambda of the constructor: `jobs.erase`
  unfoldable pub delete_job : String → Exec (Manager I J) Unit
  unfolding erase
  delete_job label = modify (λ s. record s { jobs = erase label s.jobs })

  -- Manager::Manager, from the event manager, the channel and the state file that its members open
  unfoldable pub new_manager :
      EventManager I → Channel → relaunchd.StateFile.StateFile J → Manager I J
  unfolding add_ipc_method
  new_manager e c f = record {
    pending_jobs = [];
    jobs = [];
    eventmgr = (add_ipc_method platform.kernel "delete_job" IpcCallback.delete_job e).1;
    chan = c;
    state_file = f;
    state = ManagerState.unconfigured;
    pending_result = ManagerResult.exit;
    trace = [];
  }

  -- Manager::~Manager
  unfoldable pub destroy : Exec (Manager I J) Unit
  destroy = stop_listening >> force_unload_all_jobs d
