-- ===== src/Manager/Machine/Step.antt =====
-- The state machine of Manager::initFSM in src/manager.cc, read as one function.
use relaunchd.Prelude.{◌≡◌, refl, Bool, true, false, is_empty, if◌then◌else◌}
use relaunchd.Prelude.Exec.{Exec, ok, pure, ◌>>◌}
use relaunchd.Fsm.{FsmStatus}
use relaunchd.Manager.{Manager, ManagerState, ManagerTrigger, Daemon, start_all_jobs}
use relaunchd.Manager.Unload.{unload_all_jobs}
use relaunchd.Manager.Machine.{fire, start_up, stop_listening}

module _ {I J : Type 0} (d : Daemon I J) where
  abbrev pub put_state : ManagerState → Manager I J → Manager I J
  put_state st s = record s { state = st }

  -- the action, then the new state
  abbrev pub into : ManagerState → Exec (Manager I J) Unit → Exec (Manager I J) FsmStatus
  into st action = action >> (λ s. (ok FsmStatus.success, put_state st s))

  unfoldable pub manager_step : ManagerState → ManagerTrigger → Exec (Manager I J) FsmStatus
  manager_step ManagerState.unconfigured ManagerTrigger.start_requested s =
      into ManagerState.running (start_up d) s
  manager_step ManagerState.running ManagerTrigger.start_requested s =
      if is_empty s.pending_jobs
      then (ok FsmStatus.blocked_by_guard, s)
      else into ManagerState.running (start_all_jobs d) s
  manager_step ManagerState.running ManagerTrigger.stop_requested s =
      into ManagerState.graceful_shutdown (stop_listening d >> (unload_all_jobs d >> pure tt)) s
  manager_step ManagerState.unconfigured ManagerTrigger.stop_requested s =
      (ok FsmStatus.success, put_state ManagerState.finished s)
  manager_step ManagerState.graceful_shutdown ManagerTrigger.stop_requested s =
      (ok FsmStatus.success, put_state ManagerState.finished s)
  manager_step ManagerState.graceful_shutdown ManagerTrigger.all_jobs_exited s =
      (ok FsmStatus.success, put_state ManagerState.finished s)
  manager_step _ _ s = (ok FsmStatus.no_matching_trigger, s)

  step_again :
      (s : Manager I J) (b : Bool)
      → is_empty s.pending_jobs ≡ b
      → fire d ManagerTrigger.start_requested (put_state ManagerState.running s)
        ≡ manager_step ManagerState.running ManagerTrigger.start_requested
            (put_state ManagerState.running s)
  unfolding fire manager_step
  step_again s true e = rw e refl
  step_again s false e = rw e refl

  step_each :
      (st : ManagerState) (t : ManagerTrigger) (s : Manager I J)
      → fire d t (put_state st s) ≡ manager_step st t (put_state st s)
  unfolding fire manager_step
  step_each ManagerState.running ManagerTrigger.start_requested s = step_again s _ refl
  step_each ManagerState.unconfigured ManagerTrigger.start_requested s = refl
  step_each ManagerState.unconfigured ManagerTrigger.stop_requested s = refl
  step_each ManagerState.unconfigured ManagerTrigger.all_jobs_exited s = refl
  step_each ManagerState.running ManagerTrigger.stop_requested s = refl
  step_each ManagerState.running ManagerTrigger.all_jobs_exited s = refl
  step_each ManagerState.graceful_shutdown ManagerTrigger.start_requested s = refl
  step_each ManagerState.graceful_shutdown ManagerTrigger.stop_requested s = refl
  step_each ManagerState.graceful_shutdown ManagerTrigger.all_jobs_exited s = refl
  step_each ManagerState.finished ManagerTrigger.start_requested s = refl
  step_each ManagerState.finished ManagerTrigger.stop_requested s = refl
  step_each ManagerState.finished ManagerTrigger.all_jobs_exited s = refl

  -- The transitions of the manager do, in any state and on any trigger, what `manager_step` says.
  pub fire-manager_step :
      (t : ManagerTrigger) (s : Manager I J) → fire d t s ≡ manager_step s.state t s
  fire-manager_step t s = step_each s.state t s
