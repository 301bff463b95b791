-- ===== src/Event/Dispatch.antt =====
-- EventManager::waitForEvent of src/event.h: from an event of the kernel to the call of the callback
-- that is registered for it. The callbacks are methods of an object of type `S` that contains the
-- event manager.
use relaunchd.Prelude.{ℕ, String, Option, none, some, nat_eq, string_eq}
use relaunchd.Prelude.Assoc.{lookup}
use relaunchd.Prelude.Exec.{Exec, pure, throw, ◌>>=◌, ◌>>◌, out_of_range}
use relaunchd.Prelude.Int.{ℤ, int_eq}
use relaunchd.Event.{
  WaitStatus, Event, EventManager, KernelEventInterface, SignalCallback, ProcessCallback,
  SocketCallback, TimerCallback, IpcCallback, on_impl, delete_process,
}

-- where the event manager is in the object, and what the callbacks do
pub record Handlers (I S : Type 0) : Type 0 where
  pub get : S → EventManager I
  pub put : EventManager I → S → S
  pub on_ipc : IpcCallback → String → Exec S Unit
  pub on_signal : SignalCallback → ℕ → Exec S Unit
  pub on_process : ProcessCallback → ℤ → WaitStatus → Exec S Unit
  pub on_socket : SocketCallback → ℕ → Exec S Unit
  pub on_timer : TimerCallback → Exec S Unit

module _ {I S : Type 0} (kernel : KernelEventInterface I) (h : Handlers I S) where
  -- a method of the event manager
  abbrev pub on_manager : {A : Type 0} → Exec (EventManager I) A → Exec S A
  on_manager m s = let (r, e) = m (h.get s) in (r, h.put e s)

  -- `callbacks.at(key)`
  abbrev pub found : {A : Type 0} → Option A → Exec S A
  found none = throw out_of_range
  found (some a) = pure a

  -- the `switch` of waitForEvent; the callback of a process is called once
  unfoldable pub dispatch : Event → Exec S Unit
  unfolding lookup
  dispatch (Event.ipc_event method arg) s =
      (found (lookup method (h.get s).ipc_callbacks) >>= λ callback. h.on_ipc callback arg) s
  dispatch (Event.signal_event signum) s =
      (found (lookup signum (h.get s).signal_callbacks) >>= λ callback. h.on_signal callback signum)
        s
  dispatch (Event.proc_event pid status) s =
      (found (lookup pid (h.get s).process_callbacks) >>= λ callback.
      h.on_process callback pid status >> on_manager (delete_process kernel pid))
        s
  dispatch (Event.socket_event sockfd) s =
      (found (lookup sockfd (h.get s).socket_read_callbacks) >>= λ callback.
      h.on_socket callback sockfd)
        s
  dispatch (Event.timer_event timer_id) s =
      (found (lookup timer_id (h.get s).timer_callbacks) >>= λ callback. h.on_timer callback) s

  abbrev pub dispatch_any : Option Event → Exec S Unit
  dispatch_any none = pure tt
  dispatch_any (some event) = dispatch event

  -- EventManager::waitForEvent
  unfoldable pub wait_for_event : Option ℕ → Exec S Unit
  wait_for_event timeout =
      on_manager (on_impl kernel (kernel.wait_for_event timeout)) >>= dispatch_any
