-- ===== src/Event.antt =====
-- src/event.h: the data of events and class EventManager. Each callback is a closure in the source;
-- here it is a value that names the closure and what it captured, and `Handlers` says what a call
-- of it does. A job object is named by its label, the key under which the manager owns it.
pub mod Timers
pub mod Dispatch
pub mod Epoll
pub mod Kqueue
use relaunchd.Prelude.{
  if◌then◌else◌, leb, ℕ, zero, suc, ◌+◌, String, Bool, true, false, Option, none, some, List, [],
  ◌∷◌, ◌++◌, nat_eq, string_eq,
}
use relaunchd.Prelude.Assoc.{lookup, insert, erase, contains}
use relaunchd.Prelude.Exec.{
  undefined_behaviour, never_returned, Exec, Result, ok, err, pure, throw, gets, modify, ◌>>=◌,
  ◌>>◌, out_of_range,
}
use relaunchd.Prelude.Int.{ℤ, int_eq}

-- What the macros of wait(2) read from a status.
pub data WaitStatus : Type 0 where
  exited : ℕ → WaitStatus
  signaled : ℕ → WaitStatus
  stopped : ℕ → WaitStatus
  other : WaitStatus

pub data Event : Type 0 where
  proc_event : ℤ → WaitStatus → Event
  signal_event : ℕ → Event
  socket_event : ℕ → Event
  timer_event : ℕ → Event
  ipc_event : String → String → Event

-- the state of the base class KernelEventInterface, and that of the derived class
pub record Kernel (I : Type 0) : Type 0 where
  pub child_status : List (ℤ × WaitStatus)
  pub blocked_signals : List ℕ
  pub pending_events : List Event
  pub derived : I

-- The virtual methods of KernelEventInterface that EventManager calls; EpollImplementation and
-- KqueueImplementation provide them.
pub record KernelEventInterface (I : Type 0) : Type 0 where
  pub wait_for_event : Option ℕ → Exec (Kernel I) (Option Event)
  pub monitor_child_process : ℤ → Exec (Kernel I) Unit
  pub ignore_child_process : ℤ → Exec (Kernel I) Unit
  pub monitor_signal : ℕ → Exec (Kernel I) Unit
  pub monitor_socket_read : ℕ → Exec (Kernel I) Unit
  pub ignore_socket_read : ℕ → Exec (Kernel I) Unit
  pub monitor_timer : ℕ → ℕ → Exec (Kernel I) Unit
  pub ignore_timer : ℕ → Exec (Kernel I) Unit
  pub handle_fork : Exec (Kernel I) Unit

module _ {I : Type 0} where
  -- KernelEventInterface::addPendingEvent
  unfoldable pub add_pending_event : Event → Kernel I → Kernel I
  add_pending_event e k = record k { pending_events = k.pending_events ++ e ∷ [] }

  -- KernelEventInterface::getPendingEvent
  unfoldable pub get_pending_event : Kernel I → Option Event × Kernel I
  get_pending_event k = go k.child_status k.pending_events
    where
      go : List (ℤ × WaitStatus) → List Event → Option Event × Kernel I
      go ((pid, status) ∷ rest) events =
          (some (proc_event pid status), record k { child_status = rest })
      go [] (e ∷ events) = (some e, record k { pending_events = events })
      go [] [] = (none, k)

-- the lambdas that the program registers
pub data ProcessCallback : Type 0 where
  job_process : String → ProcessCallback

pub data TimerCallback : Type 0 where
  restart_throttled : String → TimerCallback
  start_periodic : String → TimerCallback

pub data SignalCallback : Type 0 where
  ignore_signal shutdown_reboot shutdown_halt shutdown_power_down shutdown_single_user :
      SignalCallback

pub data SocketCallback : Type 0 where
  dispatch_rpc : SocketCallback

pub data IpcCallback : Type 0 where
  delete_job : IpcCallback

pub record EventManager (I : Type 0) : Type 0 where
  pub signal_callbacks : List (ℕ × SignalCallback)
  pub process_callbacks : List (ℤ × ProcessCallback)
  pub socket_read_callbacks : List (ℕ × SocketCallback)
  pub timer_callbacks : List (ℕ × TimerCallback)
  pub ipc_callbacks : List (String × IpcCallback)
  pub timer_id_max : ℕ
  pub impl : Kernel I

-- the greatest int
abbrev pub int_max : ℕ
int_max = 2147483647

-- `++i` of an int
abbrev increment : ℕ → Result ℕ
increment i = if leb int_max i then err undefined_behaviour else ok (i + 1)

-- `while (timer_callbacks.count(++timer_id_max)) { timer_id_max++; }`, on fuel: the value of
-- `timer_id_max` at the end
unfoldable pub next_timer_id : ℕ → List (ℕ × TimerCallback) → ℕ → Result ℕ
unfolding lookup
next_timer_id zero callbacks id = err never_returned
next_timer_id (suc fuel) callbacks id =
    let again = next_timer_id fuel callbacks (id + 2) in
    elim (increment id) [
      | err x ↦ err x
      | ok n ↦ elim (contains n callbacks) [
        | false ↦ ok n
        | true ↦ elim (increment n) [ err x ↦ err x | ok n' ↦ again ]
      ]
    ]

-- more rounds than there are callbacks: see `Event.Timers`
abbrev pub timer_fuel {ℓ} : {A : Type ℓ} → List A → ℕ
timer_fuel [] = 1
timer_fuel (x ∷ xs) = suc (timer_fuel xs)

module _ {I : Type 0} (kernel : KernelEventInterface I) where
  -- a call of a method of `impl`
  abbrev pub on_impl : {A : Type 0} → Exec (Kernel I) A → Exec (EventManager I) A
  on_impl m e = let (r, k) = m e.impl in (r, record e { impl = k })

  unfoldable pub add_signal : ℕ → SignalCallback → Exec (EventManager I) Unit
  unfolding insert
  add_signal signum callback = do
    on_impl (kernel.monitor_signal signum)
    modify (λ e. record e { signal_callbacks = insert signum callback e.signal_callbacks })

  unfoldable pub add_process : ℤ → ProcessCallback → Exec (EventManager I) Unit
  unfolding insert
  add_process pid callback = do
    on_impl (kernel.monitor_child_process pid)
    modify (λ e. record e { process_callbacks = insert pid callback e.process_callbacks })

  unfoldable pub delete_process : ℤ → Exec (EventManager I) Unit
  unfolding erase
  delete_process pid = do
    on_impl (kernel.ignore_child_process pid)
    modify (λ e. record e { process_callbacks = erase pid e.process_callbacks })

  unfoldable pub delete_timer : ℕ → Exec (EventManager I) Unit
  unfolding erase
  delete_timer id = do
    on_impl (kernel.ignore_timer id)
    modify (λ e. record e { timer_callbacks = erase id e.timer_callbacks })

  unfoldable pub add_socket_read : ℕ → SocketCallback → Exec (EventManager I) Unit
  unfolding insert
  add_socket_read sd callback = do
    on_impl (kernel.monitor_socket_read sd)
    modify (λ e. record e { socket_read_callbacks = insert sd callback e.socket_read_callbacks })

  unfoldable pub delete_socket_read : ℕ → Exec (EventManager I) Unit
  unfolding erase
  delete_socket_read sd = do
    on_impl (kernel.ignore_socket_read sd)
    modify (λ e. record e { socket_read_callbacks = erase sd e.socket_read_callbacks })

  -- EventManager::getNextTimerId
  unfoldable pub get_next_timer_id : Exec (EventManager I) ℕ
  unfolding next_timer_id
  get_next_timer_id e =
      elim (next_timer_id (timer_fuel e.timer_callbacks) e.timer_callbacks e.timer_id_max) [
        | err x ↦ (err x, e)
        | ok id ↦ (ok id, record e { timer_id_max = id })
      ]

  unfoldable pub add_timer : ℕ → TimerCallback → Exec (EventManager I) ℕ
  unfolding get_next_timer_id insert
  add_timer milliseconds callback = do
    id ← get_next_timer_id
    on_impl (kernel.monitor_timer id milliseconds)
    modify (λ e. record e { timer_callbacks = insert id callback e.timer_callbacks })
    pure id

  unfoldable pub add_ipc_method : String → IpcCallback → Exec (EventManager I) Unit
  unfolding insert
  add_ipc_method name callback =
      modify (λ e. record e { ipc_callbacks = insert name callback e.ipc_callbacks })

  unfoldable pub submit_ipc_callback : String → String → Exec (EventManager I) Unit
  unfolding add_pending_event
  submit_ipc_callback method arg =
      modify (λ e. record e { impl = add_pending_event (ipc_event method arg) e.impl })

  unfoldable pub handle_fork : Exec (EventManager I) Unit
  handle_fork = on_impl kernel.handle_fork
