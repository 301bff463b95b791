-- ===== src/Event/Epoll/Wait.antt =====
-- EpollImplementation::waitForEvent and getSignalEvents of src/event.h.
use relaunchd.Prelude.{
  ℕ, zero, suc, Bool, true, false, Option, none, some, List, [], ◌∷◌, ◌==◌, nat_eq, if◌then◌else◌,
}
use relaunchd.Prelude.Assoc.{is_some}
use relaunchd.Prelude.Int.{ℤ}
use relaunchd.Prelude.Exec.{
  ok, pure, throw, lift, gets, modify, ◌>>=◌, ◌>>◌, system_error, range_error, never_returned,
}
use relaunchd.Event.{
  Kernel, Event, WaitStatus, KernelEventInterface, add_pending_event, get_pending_event,
}
use relaunchd.Event.Epoll.{
  Epoll, EpollOs, Method, SignalRead, Reaped, TimerRead, Source, ask, update, watched, unwatch,
  monitor_child_process, ignore_child_process, monitor_signal, monitor_socket_read,
  ignore_socket_read, monitor_timer, ignore_timer, unblock_all_signals,
}

abbrev pub sigchld : ℕ
sigchld = 17

module _ (os : EpollOs) where
  abbrev pub queue : Event → Method Unit
  queue event = modify (add_pending_event event)

  -- the first loop of getSignalEvents, on fuel: whether SIGCHLD was seen
  unfoldable pub read_signals : ℕ → Bool → Method Bool
  unfolding add_pending_event
  read_signals zero seen = throw never_returned
  read_signals (suc fuel) seen = ask os.read_signal >>= λ answer. elim answer [
    | SignalRead.would_block ↦ pure seen
    | SignalRead.read_failed ↦ throw system_error
    | SignalRead.signal n ↦
        let child = read_signals fuel true in
        let another = queue (Event.signal_event n) >> read_signals fuel seen in
        if n == sigchld then child else another
  ]

  -- a child that was reaped: an event if it is watched
  unfoldable pub note_child : ℤ → WaitStatus → Method Unit
  unfolding add_pending_event watched unwatch
  note_child pid status = gets (λ k. watched pid k.derived.watch_pids) >>= λ known. elim known [
    | true ↦
        queue (Event.proc_event pid status)
        >> update (λ e. record e { watch_pids = unwatch pid e.watch_pids })
    | false ↦ pure tt
  ]

  -- the second loop, on fuel
  unfoldable pub reap_children : ℕ → Method Unit
  unfolding note_child
  reap_children zero = throw never_returned
  reap_children (suc fuel) = ask os.wait_any >>= λ answer. elim answer [
    | Reaped.nothing ↦ pure tt
    | Reaped.no_child ↦ pure tt
    | Reaped.wait_failed ↦ throw system_error
    | Reaped.child pid status ↦ note_child pid status >> reap_children fuel
  ]

  unfoldable pub get_signal_events : Method Unit
  unfolding read_signals reap_children
  get_signal_events = read_signals os.bound false >>= λ seen. elim seen [
    | true ↦ reap_children os.bound
    | false ↦ pure tt
  ]

  -- the front of `pending_events` alone
  unfoldable pub take_pending : Kernel Epoll → Option Event × Kernel Epoll
  take_pending k = go k.pending_events
    where
      go : List Event → Option Event × Kernel Epoll
      go [] = (none, k)
      go (e ∷ rest) = (some e, record k { pending_events = rest })

  -- the timer that a descriptor belongs to
  unfoldable pub timer_of : ℕ → List (ℕ × ℕ) → Method (Option Event)
  timer_of fd [] = throw range_error
  timer_of fd ((timer_id, tfd) ∷ rest) =
      let later = timer_of fd rest in
      if tfd == fd then pure (some (Event.timer_event timer_id)) else later

  abbrev pub on_expiry : ℕ → TimerRead → Method (Option Event)
  on_expiry fd TimerRead.expired = gets (λ k. k.derived.timerfd_map) >>= timer_of fd
  on_expiry fd TimerRead.again = pure none
  on_expiry fd TimerRead.timer_failed = throw system_error

  -- one round of the loop of waitForEvent: an event, or a wake-up without one
  unfoldable pub on_source : Option ℕ → Option Source → Method (Option Event)
  unfolding get_signal_events take_pending timer_of
  on_source timeout none = pure none
  on_source timeout (some Source.signals) =
      get_signal_events >> (λ k. let (e, k') = take_pending k in (ok e, k'))
  on_source timeout (some Source.sockets) = ask (λ n. os.socket_wait n timeout) >>= λ answer.
      lift answer >>= λ found. elim found [
        | none ↦ pure none
        | some fd ↦ pure (some (Event.socket_event fd))
      ]
  on_source timeout (some Source.timers) = ask (λ n. os.timer_wait n timeout) >>= λ answer.
      lift answer >>= λ found. elim found [
        | none ↦ pure none
        | some fd ↦ ask (λ n. os.read_timer n fd) >>= on_expiry fd
      ]
  on_source timeout (some Source.unknown) = throw range_error

  -- the loop of waitForEvent, on fuel: it ends with an event, or after one round if there is a timeout
  unfoldable pub wait_loop : ℕ → Option ℕ → Method (Option Event)
  unfolding on_source
  wait_loop zero timeout = throw never_returned
  wait_loop (suc fuel) timeout = ask (λ n. os.main_wait n timeout) >>= λ answer.
      lift answer >>= λ source. on_source timeout source >>= λ event.
      let again = wait_loop fuel timeout in
      if is_some event then pure event else if is_some timeout then pure none else again

  -- EpollImplementation::waitForEvent
  unfoldable pub wait_for_event : Option ℕ → Method (Option Event)
  unfolding wait_loop get_pending_event
  wait_for_event timeout k =
      let (pending, k') = get_pending_event k in
      elim pending [ some event ↦ (ok (some event), k') | none ↦ wait_loop os.bound timeout k' ]

  -- the class as an implementation of its interface
  abbrev pub epoll : KernelEventInterface Epoll
  epoll = record {
    wait_for_event = wait_for_event;
    monitor_child_process = monitor_child_process os;
    ignore_child_process = ignore_child_process os;
    monitor_signal = monitor_signal os;
    monitor_socket_read = monitor_socket_read os;
    ignore_socket_read = ignore_socket_read os;
    monitor_timer = monitor_timer os;
    ignore_timer = ignore_timer os;
    handle_fork = unblock_all_signals os;
  }
