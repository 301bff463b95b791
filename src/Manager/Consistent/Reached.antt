-- ===== src/Manager/Consistent/Reached.antt =====
-- The managers that the methods of src/manager.h lead to, in any order.
use relaunchd.Prelude.{◌≡◌, ℕ, String, Bool, Option, List, []}
use relaunchd.Channel.{Channel}
use relaunchd.Event.{EventManager}
use relaunchd.StateFile.{StateFile, FileSystem, new_state_file}
use relaunchd.StateFile.Saved.{IsSaved, new_state_file-IsSaved}
use relaunchd.Prelude.Exec.{ok}
use relaunchd.Rpc.Server.{rpc_dispatch}
use relaunchd.Manager.{Manager, ManagerTrigger, Daemon}
use relaunchd.Manager.Load.{override_enabled, load_manifest, load_all_manifests}
use relaunchd.Manager.Unload.{unload_label, unload_path, unload_all_jobs, kill_label}
use relaunchd.Manager.Machine.{fire, new_manager, destroy}
use relaunchd.Manager.Loop.{handle_event, run_main_loop, run_once}
use relaunchd.Manager.Consistent.{IsConsistent}
use relaunchd.Manager.Consistent.Loading.{
  override_enabled-Preserves, load_manifest-Preserves, load_all_manifests-Preserves,
}
use relaunchd.Manager.Consistent.Unloading.{
  unload_label-Preserves, unload_path-Preserves, unload_all_jobs-Preserves, kill_label-Preserves,
}
use relaunchd.Manager.Consistent.Running.{fire-Preserves, destroy-Preserves}
use relaunchd.Manager.Consistent.Serving.{rpc_dispatch-Preserves}
use relaunchd.Manager.Consistent.Looping.{
  handle_event-Preserves, run_main_loop-Preserves, run_once-Preserves,
}

-- A call of a method, whether it returns or throws. `fired` is startRunning and stopRunning, and
-- `served` a request of a client.
pub data Turn {I J : Type 0} (d : Daemon I J) (s : Manager I J) : Manager I J → Type 0 where
  fired : (t : ManagerTrigger) → Turn d s (fire d t s).1
  handled : (timeout : Option ℕ) → Turn d s (handle_event d timeout s).1
  ran_once : (timeout : Option ℕ) → Turn d s (run_once d timeout s).1
  looped : (fuel : ℕ) → Turn d s (run_main_loop d fuel s).1
  served : Turn d s (rpc_dispatch d s).1
  loaded :
      (json : J) (path : String) (override force : Bool)
      → Turn d s (load_manifest d json path override force s).1
  loaded_all :
      (path : String) (override force : Bool)
      → Turn d s (load_all_manifests d path override force s).1
  overridden : (label : String) (enabled : Bool) → Turn d s (override_enabled d label enabled s).1
  unloaded :
      (label : String) (override force : Bool) → Turn d s (unload_label d label override force s).1
  unloaded_path :
      (path : String) (override force : Bool) → Turn d s (unload_path d path override force s).1
  unloaded_all : Turn d s (unload_all_jobs d s).1
  killed : (label signal : String) → Turn d s (kill_label d label signal s).1
  destroyed : Turn d s (destroy d s).1

pub data Reached {I J : Type 0} (d : Daemon I J) : Manager I J → Type 0 where
  opened :
      (e : EventManager I) (c : Channel) (fs : FileSystem J) (failure : Option (FileSystem J))
      (path : String) (default : J) (f : StateFile J)
      → new_state_file fs failure path default ≡ ok f
      → Reached d (new_manager d e c f)
  turned : {s t : Manager I J} → Reached d s → Turn d s t → Reached d t

module _ {I J : Type 0} (d : Daemon I J) where
  pub new_manager-IsConsistent :
      (e : EventManager I) (c : Channel) (f : StateFile J)
      → IsSaved f
      → IsConsistent (new_manager d e c f)
  unfolding new_manager relaunchd.Prelude.Assoc.lookup
  new_manager-IsConsistent e c f h =
      (record { sound = tt; pending_sound = tt; apart = λ label j h. cc }, h)

  Turn-IsConsistent : {s t : Manager I J} → Turn d s t → IsConsistent s → IsConsistent t
  Turn-IsConsistent {s} (fired t) c = (fire-Preserves d t).holds s c
  Turn-IsConsistent {s} (handled timeout) c = (handle_event-Preserves d timeout).holds s c
  Turn-IsConsistent {s} (ran_once timeout) c = (run_once-Preserves d timeout).holds s c
  Turn-IsConsistent {s} (looped fuel) c = (run_main_loop-Preserves d fuel).holds s c
  Turn-IsConsistent {s} served c = (rpc_dispatch-Preserves d).holds s c
  Turn-IsConsistent {s} (loaded json path override force) c =
      (load_manifest-Preserves d json path override force).holds s c
  Turn-IsConsistent {s} (loaded_all path override force) c =
      (load_all_manifests-Preserves d path override force).holds s c
  Turn-IsConsistent {s} (overridden label enabled) c =
      (override_enabled-Preserves d label enabled).holds s c
  Turn-IsConsistent {s} (unloaded label override force) c =
      (unload_label-Preserves d label override force).holds s c
  Turn-IsConsistent {s} (unloaded_path path override force) c =
      (unload_path-Preserves d path override force).holds s c
  Turn-IsConsistent {s} unloaded_all c = (unload_all_jobs-Preserves d).holds s c
  Turn-IsConsistent {s} (killed label signal) c = (kill_label-Preserves d label signal).holds s c
  Turn-IsConsistent {s} destroyed c = (destroy-Preserves d).holds s c

  -- Whatever methods of a new manager are called, in whatever order, and whatever the system, the
  -- clients and the files answer, exceptions included: each job is kept under its own label, has a
  -- manifest that can be run, and has a timer only in state Waiting. The pending jobs are such jobs
  -- too, and none of them has the label of a job. Unless the last write of the state file failed, what is
  -- on disk is what is in memory.
  pub Reached-IsConsistent : {s : Manager I J} → Reached d s → IsConsistent s
  Reached-IsConsistent (opened e c fs failure path default f h) =
      new_manager-IsConsistent e c f (new_state_file-IsSaved fs failure path default f h)
  Reached-IsConsistent (turned r t) = Turn-IsConsistent t (Reached-IsConsistent r)
