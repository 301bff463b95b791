-- ===== src/Manager/Stopped.antt =====
-- From a signal to the end of the main loop of src/manager.cc.
use relaunchd.Prelude.{◌≡◌, ◌≢◌, refl, ap, zero, false, ℕ, suc, true, none, some, [], arith, nat_eq}
use relaunchd.Prelude.Assoc.{lookup}
use relaunchd.Prelude.Exec.{outcome, returned, threw, ok}
use relaunchd.Prelude.Int.{is_negative}
use relaunchd.Channel.{Channel, unbind_and_stop_listening}
use relaunchd.Event.{Kernel, Event, SignalCallback}
use relaunchd.Event.Dispatch.{dispatch, wait_for_event}
use relaunchd.Manager.{Manager, ManagerState, ManagerTrigger, ManagerResult, Daemon}
use relaunchd.Manager.Unload.{unload_all_jobs, unload_each}
use relaunchd.Manager.Machine.{on_signal, handle_shutdown_signal, shut_down}
use relaunchd.Manager.Machine.Step.{manager_step, fire-manager_step}
use relaunchd.Manager.Loop.{handle_event, handle_in, main_loop, run_main_loop, handlers}
use relaunchd.Manager.Shutdown.{handle_event-drained}
use relaunchd.Net.{Net}

-- the result that a signal to shut down leads to
abbrev result_of : SignalCallback → ManagerResult
result_of SignalCallback.ignore_signal = ManagerResult.exit
result_of SignalCallback.shutdown_reboot = ManagerResult.reboot
result_of SignalCallback.shutdown_halt = ManagerResult.halt
result_of SignalCallback.shutdown_power_down = ManagerResult.halt_and_power_down
result_of SignalCallback.shutdown_single_user = ManagerResult.single_user_mode

pub unbind_lem :
    (net : Net) (c : Channel)
    → ((unbind_and_stop_listening net c).0 ≡ ok tt)
      × (is_negative (unbind_and_stop_listening net c).1.sockfd ≡ true)
unfolding unbind_and_stop_listening
unbind_lem net c = ground arith

module _ {I J : Type 0} (d : Daemon I J) where
  -- the manager once it stopped listening
  abbrev leaving : ManagerResult → Manager I J → Manager I J
  leaving result s = record s {
    chan = (unbind_and_stop_listening d.net s.chan).1;
    state = ManagerState.graceful_shutdown;
    pending_result = result;
  }

  no_jobs : (s : Manager I J) → s.jobs ≡ [] → unload_all_jobs d s ≡ (ok true, s)
  unfolding unload_all_jobs unload_each
  no_jobs s h = rw h refl

  shut_down-idle :
      (result : ManagerResult) (s : Manager I J)
      → s.state ≡ ManagerState.running
      → s.jobs ≡ []
      → shut_down d result s ≡ (ok tt, leaving result s)
  unfolding handle_shutdown_signal manager_step
  shut_down-idle result s r j =
      let s' = record s { pending_result = result } in
      let u = record s' { chan = (unbind_and_stop_listening d.net s.chan).1 } in
      ground (
        arith,
        r,
        fire-manager_step d ManagerTrigger.stop_requested s',
        unbind_lem d.net s.chan,
        no_jobs u j,
      )

  abbrev after_wait : Kernel I → Manager I J → Manager I J
  after_wait k s = record s { eventmgr = record s.eventmgr { impl = k } }

  -- the kernel reports a signal that shuts the daemon down
  pub record Signalled (s : Manager I J) (signum : ℕ) (callback : SignalCallback) (k : Kernel I)
      : Type 0 where
    pub reported :
        d.platform.kernel.wait_for_event none s.eventmgr.impl
        ≡ (ok (some (Event.signal_event signum)), k)
    pub registered : lookup signum s.eventmgr.signal_callbacks ≡ some callback
    pub not_ignored : callback ≢ SignalCallback.ignore_signal

  shuts_down :
      (callback : SignalCallback)
      → callback ≢ SignalCallback.ignore_signal
      → on_signal d callback ≡ shut_down d (result_of callback)
  unfolding on_signal
  shuts_down SignalCallback.ignore_signal h = absurd (h refl)
  shuts_down SignalCallback.shutdown_reboot h = refl
  shuts_down SignalCallback.shutdown_halt h = refl
  shuts_down SignalCallback.shutdown_power_down h = refl
  shuts_down SignalCallback.shutdown_single_user h = refl

  wait-Signalled :
      (s : Manager I J) (signum : ℕ) (callback : SignalCallback) (k : Kernel I)
      → Signalled s signum callback k
      → wait_for_event d.platform.kernel (handlers d) none s
        ≡ shut_down d (result_of callback) (after_wait k s)
  unfolding wait_for_event dispatch
  wait-Signalled s signum callback k h = ground (
    arith,
    h.reported,
    h.registered,
    ap (λ m. m (after_wait k s)) (shuts_down callback h.not_ignored),
  )

  handle_event-Signalled :
      (s : Manager I J) (signum : ℕ) (callback : SignalCallback) (k : Kernel I)
      → s.state ≡ ManagerState.running
      → s.jobs ≡ []
      → Signalled s signum callback k
      → handle_event d none s ≡ (ok true, leaving (result_of callback) (after_wait k s))
  unfolding handle_event handle_in
  handle_event-Signalled s signum callback k r j h = ground (
    arith,
    r,
    wait-Signalled s signum callback k h,
    shut_down-idle (result_of callback) (after_wait k s) r j,
  )

  -- A running daemon without jobs that waits for events and gets a signal to shut down leaves its
  -- main loop in the second round, with the result of the signal. It is finished then, has no jobs
  -- and its socket is closed.
  pub run_main_loop-stops :
      (fuel : ℕ) (s : Manager I J) (signum : ℕ) (callback : SignalCallback) (k : Kernel I)
      → s.state ≡ ManagerState.running
      → s.jobs ≡ []
      → Signalled s signum callback k
      → let (r, t) = run_main_loop d (suc (suc fuel)) s in
        (r ≡ ok (result_of callback))
        × (t.state ≡ ManagerState.finished)
        × (t.jobs ≡ [])
        × (is_negative t.chan.sockfd ≡ true)
  unfolding run_main_loop main_loop
  run_main_loop-stops fuel s signum callback k r j h =
      let t = leaving (result_of callback) (after_wait k s) in
      ground (
        arith,
        r,
        j,
        handle_event-Signalled s signum callback k r j h,
        handle_event-drained d none t refl j,
        unbind_lem d.net s.chan,
      )

  handle_event-last :
      (s : Manager I J)
      → (handle_event d none s).0 ≡ ok false
      → (handle_event d none s).1.state ≡ ManagerState.finished
  unfolding handle_event
  handle_event-last s h = ground arith

  main_loop_again :
      (fuel : ℕ) (s : Manager I J) (result : ManagerResult)
      → (handle_event d none s).0 ≡ ok true
      → (main_loop d (suc fuel) s).0 ≡ ok result
      → ((main_loop d fuel (handle_event d none s).1).0 ≡ ok result
          → (main_loop d fuel (handle_event d none s).1).1.state ≡ ManagerState.finished)
      → (main_loop d (suc fuel) s).1.state ≡ ManagerState.finished
  unfolding main_loop
  main_loop_again fuel s result e h again = ground (arith, e, h, again)

  -- The main loop returns in no other state than Finished.
  pub main_loop-finished :
      (fuel : ℕ) (s : Manager I J) (result : ManagerResult)
      → (main_loop d fuel s).0 ≡ ok result
      → (main_loop d fuel s).1.state ≡ ManagerState.finished
  unfolding main_loop
  main_loop-finished zero s result h = absurd (ground (arith, h))
  main_loop-finished (suc fuel) s result h = elim (outcome (handle_event d none s).0) [
    | threw x e ↦ absurd (ground (arith, e, h))
    | returned false e ↦ ground (arith, e, handle_event-last s e)
    | returned true e ↦
        main_loop_again fuel s result e h (main_loop-finished fuel (handle_event d none s).1 result)
  ]
