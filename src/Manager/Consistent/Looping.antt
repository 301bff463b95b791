-- ===== src/Manager/Consistent/Looping.antt =====
-- src/manager.cc: the callbacks of the events and the main loop keep the jobs of the manager
-- consistent.
use relaunchd.Prelude.{
  ℕ, zero, suc, Bool, true, false, Option, none, some, is_empty, nat_eq, string_eq,
}
use relaunchd.Prelude.Assoc.{lookup}
use relaunchd.Prelude.Int.{int_eq}
use relaunchd.Prelude.Exec.{
  Exec, ok, err, pure, gets, ◌>>=◌, ◌>>◌, undefined_behaviour, never_returned, logic_error,
}
use relaunchd.Prelude.Exec.Preserves.{
  Preserves, preserves_rules, Preserves->>=, Preserves-read, Preserves-test,
}
use relaunchd.Event.{
  EventManager, Event, ProcessCallback, TimerCallback, WaitStatus, delete_process, on_impl,
}
use relaunchd.Event.Dispatch.{dispatch, dispatch_any, wait_for_event, found, on_manager}
use relaunchd.Manager.{Manager, ManagerState, ManagerTrigger, ManagerResult, Daemon}
use relaunchd.Manager.Machine.{fire, same_state, on_signal, delete_job}
use relaunchd.Manager.Loop.{
  on_process, on_timer, handlers, wait, handle_in, handle_event, main_loop, run_main_loop, run_once,
}
use relaunchd.Rpc.Server.{rpc_dispatch}
use relaunchd.Job.Kept.{process_event-Keeps, restart-Keeps, periodic-Keeps}
use relaunchd.Manager.Consistent.{IsConsistent, with_job-Preserves}
use relaunchd.Manager.Consistent.Running.{fire-Preserves, on_signal-Preserves, delete_job-Preserves}
use relaunchd.Manager.Consistent.Serving.{rpc_dispatch-Preserves}

module _ {I J : Type 0} (d : Daemon I J) where
  on_process-Preserves :
      (callback : ProcessCallback) (status : WaitStatus)
      → Preserves IsConsistent (on_process d callback status)
  on_process-Preserves (ProcessCallback.job_process label) status =
      with_job-Preserves undefined_behaviour label _ (process_event-Keeps d.platform status)

  on_timer-Preserves : (callback : TimerCallback) → Preserves IsConsistent (on_timer d callback)
  on_timer-Preserves (TimerCallback.restart_throttled label) =
      with_job-Preserves undefined_behaviour label _ (restart-Keeps d.platform)
  on_timer-Preserves (TimerCallback.start_periodic label) =
      with_job-Preserves undefined_behaviour label _ (periodic-Keeps d.platform)

  on_events-Preserves :
      {A : Type 0} (m : Exec (EventManager I) A)
      → Preserves IsConsistent (on_manager d.platform.kernel (handlers d) m)
  on_events-Preserves m = record { holds = λ s c. c }

  -- the callback that is found, if any
  called :
      {A : Type 0} (o : Option A) (f : A → Exec (Manager I J) Unit)
      → ((a : A) → Preserves IsConsistent (f a))
      → Preserves IsConsistent (found d.platform.kernel (handlers d) o >>= f)
  called none f p = Preserves-read _
  called (some a) f p = record { holds = (p a).holds }

  dispatch-Preserves :
      (event : Event) → Preserves IsConsistent (dispatch d.platform.kernel (handlers d) event)
  unfolding dispatch
  dispatch-Preserves (Event.ipc_event method arg) = record {
    holds = λ s c.
        (called (lookup method s.eventmgr.ipc_callbacks) (λ _. delete_job d arg)
            (λ _. delete_job-Preserves d arg)).holds
          s c;
  }
  dispatch-Preserves (Event.signal_event signum) = record {
    holds = λ s c.
        (called (lookup signum s.eventmgr.signal_callbacks) (on_signal d)
            (on_signal-Preserves d)).holds
          s c;
  }
  dispatch-Preserves (Event.proc_event pid status) = record {
    holds = λ s c.
        (called (lookup pid s.eventmgr.process_callbacks) _ (λ callback.
            Preserves->>= (on_process d callback status) _ (on_process-Preserves callback status)
              (λ _. on_events-Preserves (delete_process d.platform.kernel pid)))).holds
          s c;
  }
  dispatch-Preserves (Event.socket_event sockfd) = record {
    holds = λ s c.
        (called (lookup sockfd s.eventmgr.socket_read_callbacks) (λ _. rpc_dispatch d >> pure tt)
            (λ _. search (preserves_rules, rpc_dispatch-Preserves))).holds
          s c;
  }
  dispatch-Preserves (Event.timer_event timer_id) = record {
    holds = λ s c.
        (called (lookup timer_id s.eventmgr.timer_callbacks) (on_timer d) on_timer-Preserves).holds
          s c;
  }

  dispatch_any-Preserves :
      (event : Option Event)
      → Preserves IsConsistent (dispatch_any d.platform.kernel (handlers d) event)
  dispatch_any-Preserves none = Preserves-read _
  dispatch_any-Preserves (some event) = dispatch-Preserves event

  wait-Preserves : (timeout : Option ℕ) → Preserves IsConsistent (wait d timeout)
  unfolding wait_for_event
  wait-Preserves timeout =
      let asked : Exec (EventManager I) (Option Event) =
        on_impl d.platform.kernel (d.platform.kernel.wait_for_event timeout) in
      Preserves->>= (on_manager d.platform.kernel (handlers d) asked) _ (on_events-Preserves asked)
        dispatch_any-Preserves

  handle_in-Preserves :
      (st : ManagerState) (timeout : Option ℕ) → Preserves IsConsistent (handle_in d st timeout)
  unfolding handle_in
  handle_in-Preserves ManagerState.unconfigured timeout = Preserves-read (λ _. err logic_error)
  handle_in-Preserves ManagerState.running timeout = record {
    holds = (wait-Preserves timeout).holds;
  }
  handle_in-Preserves ManagerState.graceful_shutdown timeout =
      Preserves-test (λ s. is_empty s.jobs) (fire d ManagerTrigger.all_jobs_exited >> pure tt)
        (wait d (some 500)) (search (preserves_rules, fire-Preserves)) (wait-Preserves (some 500))
  handle_in-Preserves ManagerState.finished timeout = Preserves-read (λ _. ok tt)

  pub handle_event-Preserves :
      (timeout : Option ℕ) → Preserves IsConsistent (handle_event d timeout)
  unfolding handle_event
  handle_event-Preserves timeout = search (preserves_rules, handle_in-Preserves)

  abbrev go_on : Bool → Exec (Manager I J) ManagerResult → Exec (Manager I J) ManagerResult
  go_on more m = elim more [ true ↦ m | false ↦ gets (λ s. s.pending_result) ]

  after_event :
      (more : Bool) (m : Exec (Manager I J) ManagerResult)
      → Preserves IsConsistent m
      → Preserves IsConsistent (go_on more m)
  after_event true m p = p
  after_event false m p = Preserves-read (λ s. ok s.pending_result)

  main_loop-Preserves : (fuel : ℕ) → Preserves IsConsistent (main_loop d fuel)
  unfolding main_loop
  main_loop-Preserves zero = Preserves-read (λ _. err never_returned)
  main_loop-Preserves (suc fuel) =
      Preserves->>= (handle_event d none) _ (handle_event-Preserves none)
        (λ more. after_event more (main_loop d fuel) (main_loop-Preserves fuel))

  pub run_main_loop-Preserves : (fuel : ℕ) → Preserves IsConsistent (run_main_loop d fuel)
  unfolding run_main_loop
  run_main_loop-Preserves fuel =
      Preserves-test (λ s. same_state s.state ManagerState.running) (main_loop d fuel) _
        (main_loop-Preserves fuel) (Preserves-read (λ _. err logic_error))

  pub run_once-Preserves : (timeout : Option ℕ) → Preserves IsConsistent (run_once d timeout)
  unfolding run_once
  run_once-Preserves timeout =
      Preserves-test (λ s. same_state s.state ManagerState.running) (handle_event d timeout) _
        (handle_event-Preserves timeout) (Preserves-read (λ _. err logic_error))
