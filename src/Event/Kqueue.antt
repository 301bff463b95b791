-- ===== src/Event/Kqueue.antt =====
-- class KqueueImplementation of src/event.h. The kernel's side enters as the answers of `KqueueOs`,
-- which may depend on the number of calls so far; what is registered with the queue is part of the
-- state, as kevent(2) describes it: adding replaces, and only what was added can be deleted.
pub mod Cancelled
use relaunchd.Prelude.{
  ℕ, zero, suc, Bool, true, false, not, Option, none, some, List, [], ◌∷◌, ◌==◌, nat_eq, filter_by,
  if◌then◌else◌,
}
use relaunchd.Prelude.Assoc.{insert, lookup, contains, is_some}
use relaunchd.Prelude.Int.{ℤ, int_eq}
use relaunchd.Prelude.Exec.{
  Exec, Result, ok, err, pure, throw, gets, modify, ◌>>=◌, ◌>>◌, system_error, range_error,
  never_returned,
}
use relaunchd.Event.{Kernel, Event, WaitStatus, KernelEventInterface, get_pending_event}
use relaunchd.Event.Epoll.{add, remove, member}
use relaunchd.Event.Epoll.Wait.{sigchld}
use relaunchd.Os.{Errno}

-- the identifier and the filter of a `struct kevent`
pub data Knote : Type 0 where
  process : ℤ → Knote
  signal read timer : ℕ → Knote

abbrev pub same_knote : Knote → Knote → Bool
same_knote (process a) (process b) = a == b
same_knote (signal a) (signal b) = a == b
same_knote (read a) (read b) = a == b
same_knote (timer a) (timer b) = a == b
same_knote _ _ = false

unfoldable pub registered : Knote → List Knote → Bool
registered n [] = false
registered n (x ∷ xs) = if same_knote x n then true else registered n xs

unfoldable pub forget : Knote → List Knote → List Knote
unfolding filter_by
forget n xs = filter_by (λ x. not (same_knote x n)) xs

-- KernelEventInterface::waitForProcess: a failure is the status -1, of which all macros of wait(2) say
-- no
unfoldable pub wait_for_process : Option WaitStatus → WaitStatus
wait_for_process none = WaitStatus.other
wait_for_process (some status) = status

-- what `kevent` says when it waits
pub data Waited : Type 0 where
  process_exited : ℤ → WaitStatus → Waited
  signal_caught read_ready timer_expired : ℕ → Waited
  other_filter nothing interrupted failed : Waited

pub record KqueueOs : Type 0 where
  -- why an EV_ADD fails, if it does
  pub add_answer : ℕ → Knote → Option Errno
  pub signal_fails : ℕ → ℕ → Bool
  pub wait_answer : ℕ → Option ℕ → Waited
  -- `waitpid` with WNOHANG: none if it fails or there is nothing to wait for
  pub waitpid_answer : ℕ → ℤ → Option WaitStatus
  -- more rounds than there are interruptions and wake-ups without an event
  pub bound : ℕ

pub record Kqueue : Type 0 where
  pub calls : ℕ
  pub knotes : List Knote

abbrev pub Method : Type 0 → Type 0
Method A = Exec (Kernel Kqueue) A

abbrev ask : {A : Type 0} → (ℕ → A) → Method A
ask answer k = (
  ok (answer k.derived.calls),
  record k { derived = record k.derived { calls = suc k.derived.calls } },
)

abbrev put_knotes : (List Knote → List Knote) → Method Unit
put_knotes f = modify (λ k. record k { derived = record k.derived { knotes = f k.derived.knotes } })

-- `kevent` with EV_DELETE: ENOENT, where there is nothing to delete
unfoldable pub delete_knote : Knote → Method (Option Unit)
unfolding registered forget
delete_knote n = gets (λ k. registered n k.derived.knotes) >>= λ known. elim known [
  | true ↦ put_knotes (forget n) >> pure (some tt)
  | false ↦ pure none
]

-- changeKevent with EV_DELETE
unfoldable pub change_delete : Knote → Method Unit
unfolding delete_knote
change_delete n =
    delete_knote n >>= λ deleted. elim deleted [ some done ↦ pure tt | none ↦ throw system_error ]

-- an event is reported once for a process or a timer, which were added with EV_ONESHOT
unfoldable pub report : Waited → Method (Option Event)
unfolding forget
report (process_exited pid status) =
    put_knotes (forget (process pid)) >> pure (some (Event.proc_event pid status))
report (signal_caught n) = pure (some (Event.signal_event n))
report (read_ready fd) = pure (some (Event.socket_event fd))
report (timer_expired id) = put_knotes (forget (timer id)) >> pure (some (Event.timer_event id))
report _ = throw range_error

module _ (os : KqueueOs) where
  -- changeKevent with EV_ADD, where `failed` says what a failure leads to
  unfoldable pub change_add : (Errno → Method Unit) → Knote → Method Unit
  change_add handler n = ask (λ calls. os.add_answer calls n) >>= λ answer. elim answer [
    | none ↦ put_knotes (λ xs. n ∷ xs)
    | some errno ↦ handler errno
  ]

  abbrev pub rethrow : Errno → Method Unit
  rethrow errno = throw system_error

  -- the loop of waitForEvent, on fuel
  unfoldable pub wait_loop : ℕ → Option ℕ → Method (Option Event)
  unfolding report
  wait_loop zero timeout = throw never_returned
  wait_loop (suc fuel) timeout = ask (λ calls. os.wait_answer calls timeout) >>= λ answer.
      elim answer [
        | interrupted ↦ wait_loop fuel timeout
        | failed ↦ throw system_error
        | nothing ↦ elim (is_some timeout) [ true ↦ pure none | false ↦ wait_loop fuel timeout ]
        | process_exited pid status ↦ report (process_exited pid status)
        | signal_caught n ↦ report (signal_caught n)
        | read_ready fd ↦ report (read_ready fd)
        | timer_expired id ↦ report (timer_expired id)
        | other_filter ↦ report other_filter
      ]

  -- KqueueImplementation::waitForEvent
  unfoldable pub wait_for_event : Option ℕ → Method (Option Event)
  unfolding wait_loop get_pending_event
  wait_for_event timeout k =
      let (pending, k') = get_pending_event k in
      elim pending [ some event ↦ (ok (some event), k') | none ↦ wait_loop os.bound timeout k' ]

  -- a process that has exited before it could be watched
  unfoldable pub collect : ℤ → Errno → Method Unit
  unfolding insert wait_for_process
  collect pid Errno.esrch = ask (λ calls. os.waitpid_answer calls pid) >>= λ waited.
      modify (λ k. record k { child_status = insert pid (wait_for_process waited) k.child_status })
  collect pid _ = throw system_error

  unfoldable pub monitor_child_process : ℤ → Method Unit
  unfolding change_add collect
  monitor_child_process pid = change_add (collect pid) (process pid)

  -- ENOENT is ignored
  unfoldable pub ignore_child_process : ℤ → Method Unit
  unfolding delete_knote lookup
  ignore_child_process pid = gets (λ k. contains pid k.child_status) >>= λ known. elim known [
    | true ↦ pure tt
    | false ↦ delete_knote (process pid) >> pure tt
  ]

  unfoldable pub monitor_socket_read : ℕ → Method Unit
  unfolding change_add
  monitor_socket_read sockfd = change_add rethrow (read sockfd)

  unfoldable pub ignore_socket_read : ℕ → Method Unit
  unfolding change_delete
  ignore_socket_read sockfd = change_delete (read sockfd)

  -- `signal(signum, handler)`
  abbrev set_handler : ℕ → Method Unit
  set_handler signum = ask (λ calls. os.signal_fails calls signum) >>= λ fails. elim fails [
    | true ↦ throw system_error
    | false ↦ pure tt
  ]

  unfoldable pub monitor_signal : ℕ → Method Unit
  unfolding change_add member
  monitor_signal signum = elim (signum == sigchld) [
    | true ↦ throw range_error
    | false ↦
        set_handler signum
        >> (modify (λ k. record k { blocked_signals = add signum k.blocked_signals })
            >> change_add rethrow (signal signum))
  ]

  unfoldable pub unblock_signal : ℕ → Method Unit
  unfolding remove
  unblock_signal signum =
      set_handler signum
      >> modify (λ k. record k { blocked_signals = remove signum k.blocked_signals })

  -- failures of `signal` are ignored here
  unfoldable pub unblock_all_signals : Method Unit
  unblock_all_signals = modify (λ k. record k { blocked_signals = [] })

  unfoldable pub ignore_signal : ℕ → Method Unit
  unfolding unblock_signal change_delete
  ignore_signal signum = unblock_signal signum >> change_delete (signal signum)

  unfoldable pub monitor_timer : ℕ → ℕ → Method Unit
  unfolding change_add
  monitor_timer timer_id milliseconds = change_add rethrow (timer timer_id)

  unfoldable pub ignore_timer : ℕ → Method Unit
  unfolding change_delete
  ignore_timer timer_id = change_delete (timer timer_id)

  -- the class as an implementation of its interface
  abbrev pub kqueue : KernelEventInterface Kqueue
  kqueue = record {
    wait_for_event = wait_for_event;
    monitor_child_process = monitor_child_process;
    ignore_child_process = ignore_child_process;
    monitor_signal = monitor_signal;
    monitor_socket_read = monitor_socket_read;
    ignore_socket_read = ignore_socket_read;
    monitor_timer = monitor_timer;
    ignore_timer = ignore_timer;
    handle_fork = unblock_all_signals;
  }
