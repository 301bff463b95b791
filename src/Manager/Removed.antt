-- ===== src/Manager/Removed.antt =====
-- How a job leaves the manager of src/manager.cc: from the exit of its process to its deletion, over
-- the event manager of src/event.h.
use relaunchd.Prelude.{
  String, true, ◌≡◌, refl, none, some, [], ◌∷◌, ◌++◌, arith, ◌==◌, string_eq, if◌then◌else◌,
}
use relaunchd.Prelude.Assoc.{lookup, lookup-assign, lookup-erase, is_some}
use relaunchd.Prelude.Int.{ℤ, pos, int_eq}
use relaunchd.Prelude.Exec.{Exec, ok}
use relaunchd.Event.{
  Event, EventManager, Kernel, KernelEventInterface, WaitStatus, ProcessCallback, IpcCallback,
  delete_process, submit_ipc_callback, add_pending_event,
}
use relaunchd.Event.Dispatch.{dispatch}
use relaunchd.Job.{Job, Sys, States}
use relaunchd.Job.Process.{reap_child_process}
use relaunchd.Job.Machine.{on_process_event}
use relaunchd.Job.Lifecycle.{on_process_event-unloads}
use relaunchd.Manager.{Manager, Daemon, with_job, view, after}
use relaunchd.Manager.Machine.{delete_job}
use relaunchd.Manager.Loop.{handlers, in_job}

-- what the kernel interfaces do when a process is no longer of interest
pub record IgnoresProcesses {I : Type 0} (kernel : KernelEventInterface I) : Type 0 where
  pub returns : (pid : ℤ) (k : Kernel I) → (kernel.ignore_child_process pid k).0 ≡ ok tt
  pub keeps_events :
      (pid : ℤ) (k : Kernel I)
      → (kernel.ignore_child_process pid k).1.pending_events ≡ k.pending_events

module _ {I J : Type 0} (d : Daemon I J) where
  delete_process_lem :
      (pid : ℤ) (e : EventManager I)
      → IgnoresProcesses d.platform.kernel
      → let (r, e') = delete_process d.platform.kernel pid e in
        (r ≡ ok tt)
        × (lookup pid e'.process_callbacks ≡ none)
        × (e'.impl.pending_events ≡ e.impl.pending_events)
        × (e'.ipc_callbacks ≡ e.ipc_callbacks)
  unfolding delete_process
  delete_process_lem pid e laws = ground (
    arith,
    laws.returns pid e.impl,
    laws.keeps_events pid e.impl,
    lookup-erase pid pid e.process_callbacks,
    int_eq.equals_iff pid pid,
  )

  -- the callback of the process runs in the job that it belongs to
  in_job_found :
      (label : String) (job : Job) (m : Exec (Sys I J) Unit) (s : Manager I J)
      → lookup label s.jobs ≡ some job
      → in_job d label m s ≡ ((m (view job s)).0, after label (m (view job s)).1 s)
  unfolding with_job
  in_job_found label job m s h = ground arith

  dispatch_proc :
      (pid : ℤ) (status : WaitStatus) (label : String) (job : Job) (s : Manager I J) (sys : Sys I J)
      → IgnoresProcesses d.platform.kernel
      → lookup pid s.eventmgr.process_callbacks ≡ some (ProcessCallback.job_process label)
      → lookup label s.jobs ≡ some job
      → on_process_event d.platform status (view job s) ≡ (ok tt, sys)
      → dispatch d.platform.kernel (handlers d) (Event.proc_event pid status) s ≡ (
        ok tt,
        record (after label sys s) {
          eventmgr = (delete_process d.platform.kernel pid sys.events).1;
        },
      )
  unfolding dispatch
  dispatch_proc pid status label job s sys laws c l q =
      let found = in_job_found label job (on_process_event d.platform status) s l in
      let (x, _, _, _) = delete_process_lem pid sys.events laws in ground (arith, c, found, q, x)

  -- The process of a running job that is to be unloaded ends, and its event is dispatched: the
  -- callback for the process is gone, the job is unloaded and still there, and the last pending
  -- event is the request to delete it.
  pub dispatch-exited :
      (pid : ℤ) (status : WaitStatus) (label : String) (job : Job) (s : Manager I J)
      → IgnoresProcesses d.platform.kernel
      → lookup pid s.eventmgr.process_callbacks ≡ some (ProcessCallback.job_process label)
      → lookup label s.jobs ≡ some job
      → job.state ≡ States.running
      → job.unload_requested ≡ true
      → is_some job.started_at ≡ true
      → (reap_child_process d.platform status (view job s)).0 ≡ ok tt
      → let (r, t) = dispatch d.platform.kernel (handlers d) (Event.proc_event pid status) s in
        (r ≡ ok tt)
        × (lookup pid t.eventmgr.process_callbacks ≡ none)
        × ((j : Job) × (lookup label t.jobs ≡ some j)
            × (j.state ≡ States.unloaded)
            × (j.pid ≡ pos 0))
        × (t.eventmgr.impl.pending_events
            ≡ s.eventmgr.impl.pending_events
              ++ Event.ipc_event "delete_job" job.manifest.label.value ∷ [])
  unfolding submit_ipc_callback add_pending_event
  dispatch-exited pid status label job s laws c l r u st reap =
      let (a, b, c', e) = on_process_event-unloads d.platform status (view job s) reap r u st in
      let sys = (on_process_event d.platform status (view job s)).1 in
      let (_, y, z, w) = delete_process_lem pid sys.events laws in
      let whole = dispatch_proc pid status label job s sys laws c l (ground (arith, a)) in
      let there = lookup-assign label label sys.job s.jobs in
      rw whole (
        refl,
        y,
        (sys.job, ground (arith, there, l, string_eq.equals_iff label label), b, c'),
        ground (arith, z, e),
      )

  -- When the request to delete a job is dispatched, the job is gone, and every other job is what it
  -- was.
  pub dispatch-delete_job :
      (label other : String) (s : Manager I J)
      → lookup "delete_job" s.eventmgr.ipc_callbacks ≡ some IpcCallback.delete_job
      → let (r, t) =
          dispatch d.platform.kernel (handlers d) (Event.ipc_event "delete_job" label) s in
        (r ≡ ok tt) × (lookup other t.jobs ≡ (if label == other then none else lookup other s.jobs))
  unfolding dispatch delete_job
  dispatch-delete_job label other s c = ground (arith, c, lookup-erase label other s.jobs)
