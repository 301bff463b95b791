-- ===== src/Tests/Daemon.antt =====
-- A whole run of the daemon, from its start to a signal that ends it.
use relaunchd.Prelude.{refl, string_eq, nat_eq, some, List, [], ◌∷◌}
use relaunchd.Prelude.Assoc.{lookup, insert}
use relaunchd.Prelude.Int.{ℤ, pos}
use relaunchd.Prelude.Exec.{ok, pure}
use relaunchd.Fsm.{execute, scan}
use relaunchd.Event.{Event, add_signal, add_socket_read, add_ipc_method}
use relaunchd.Event.Dispatch.{wait_for_event, dispatch}
use relaunchd.Channel.{bind_and_listen, get_sock_fd, unbind_and_stop_listening}
use relaunchd.Domain.{get_load_paths}
use relaunchd.Manager.{Daemon, start_all_jobs, start_each}
use relaunchd.Manager.Load.{load_default_manifests, load_paths_of, load_all_manifests}
use relaunchd.Manager.Unload.{unload_all_jobs, unload_each, force_unload_all_jobs, force_each}
use relaunchd.Manager.Machine.{
  fire, transitions, setup_signal_handlers, start_rpc_server, handle_shutdown_signal, on_signal,
  new_manager, destroy,
}
use relaunchd.Manager.Loop.{run_main_loop, main_loop, handle_event, handle_in}
use relaunchd.Program.Launchd.{
  HostCall, Process, launchd_main, read_flags, run_boot_script, detach, redirect_stdio,
  null_descriptor, become_a_subreaper,
}
use relaunchd.Program.Launchd.Finished.{ReturnsZero, Done, launchd_main-Done}
use relaunchd.Tests.Values.{Value}
use relaunchd.Tests.Systems.{kernel, platform, no_events, listening, saved}
use relaunchd.Tests.Managers.{daemon}

-- the kernel reports SIGTERM whenever it is asked
abbrev pub ending : Daemon Unit Value
ending = record daemon {
  platform = record platform {
    kernel = record kernel { wait_for_event = λ t. pure (some (Event.signal_event 15)) };
  };
}

abbrev pub grants : List HostCall → HostCall → ℤ
grants calls call = pos 0

abbrev pub at_start : Process Unit Value
at_start = record { host_calls = []; manager = ok (new_manager ending no_events listening saved) }

returns_zero : ReturnsZero (launchd_main grants ending 2 1 (b'b' ∷ b'd' ∷ []) at_start).0
unfolding launchd_main read_flags run_boot_script detach redirect_stdio null_descriptor
    become_a_subreaper fire transitions execute scan setup_signal_handlers add_signal
    start_rpc_server bind_and_listen get_sock_fd add_socket_read load_default_manifests
    load_paths_of get_load_paths load_all_manifests start_all_jobs start_each run_main_loop
    main_loop handle_event handle_in wait_for_event dispatch on_signal handle_shutdown_signal
    unload_all_jobs unload_each unbind_and_stop_listening destroy force_unload_all_jobs force_each
    lookup insert new_manager add_ipc_method
returns_zero = refl

launchd_main-Done_example : Done (launchd_main grants ending 2 1 (b'b' ∷ b'd' ∷ []) at_start).1
launchd_main-Done_example =
    launchd_main-Done grants ending 2 1 (b'b' ∷ b'd' ∷ []) at_start returns_zero
