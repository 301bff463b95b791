-- ===== src/Tests/Timers.antt =====
-- The theorems on EpollImplementation and on timers that cannot be cancelled at concrete inputs.
use relaunchd.Prelude.{
  zero, suc, inr, filter_by, arith, ℕ, string_eq, nat_eq, ◌≡◌, refl, false, none, some, List, [],
  ◌∷◌,
}
use relaunchd.Prelude.Assoc.{lookup, insert}
use relaunchd.Prelude.Int.{pos, int_eq}
use relaunchd.Prelude.Exec.{ok, err, system_error}
use relaunchd.Event.{Kernel, Event, WaitStatus}
use relaunchd.Event.Epoll.{
  watched, Epoll, EpollOs, SignalRead, Reaped, TimerRead, member, monitor_timer, ignore_timer,
}
use relaunchd.Event.Epoll.Wait.{reap_children}
use relaunchd.Event.Epoll.Reaping.{reap_children-queues}
use relaunchd.Event.Epoll.TimerFd.{ignore_timer-monitor_timer}

abbrev linux : EpollOs
linux = record {
  kill_answer = λ n pid. none;
  signalfd_fails = λ n. false;
  epoll_add_fails = λ n. false;
  timerfd_create = λ n. some 9;
  settime_fails = λ n. false;
  main_wait = λ n t. ok none;
  socket_wait = λ n t. ok none;
  timer_wait = λ n t. ok none;
  read_timer = λ n fd. TimerRead.expired;
  read_signal = λ n. SignalRead.would_block;
  wait_any = λ n. Reaped.nothing;
  bound = 4;
}

-- 4 is the signal descriptor, 5 and 7 are the other epoll descriptors
abbrev opened : ℕ → List (ℕ × ℕ) → List ℕ → Kernel Epoll
opened calls timers watched = record {
  child_status = [];
  blocked_signals = [];
  pending_events = [];
  derived = record {
    calls = calls;
    watch_pids = [];
    timerfd_map = timers;
    sigmask = [];
    cleanup_fds = watched;
    epfd_set = 4 ∷ 5 ∷ 7 ∷ [];
    socket_set = [];
    timer_set = watched;
  };
}

timer_set : monitor_timer linux 1 5000 (opened 0 [] []) ≡ (ok tt, opened 3 ((1, 9) ∷ []) (9 ∷ []))
unfolding monitor_timer member insert lookup
timer_set = refl

ignore_timer-monitor_timer_example :
    let (r, t) = ignore_timer linux 1 (opened 3 ((1, 9) ∷ []) (9 ∷ [])) in
    (r ≡ err system_error) × (lookup 1 t.derived.timerfd_map ≡ none)
unfolding lookup member
ignore_timer-monitor_timer_example =
    ignore_timer-monitor_timer linux 1 5000 9 (opened 0 [] []) (opened 3 ((1, 9) ∷ []) (9 ∷ []))
      refl refl refl timer_set

-- three children exit, of which two are watched
abbrev exits : ℕ → Reaped
exits zero = Reaped.child (pos 42) (WaitStatus.exited 0)
exits (suc zero) = Reaped.child (pos 43) (WaitStatus.signaled 9)
exits (suc (suc zero)) = Reaped.child (pos 44) (WaitStatus.exited 1)
exits _ = Reaped.no_child

abbrev busy : EpollOs
busy = record linux { wait_any = exits }

abbrev watching : Kernel Epoll
watching = record (opened 0 [] []) {
  derived = record (opened 0 [] []).derived { watch_pids = pos 44 ∷ pos 42 ∷ [] };
}

reap_children-queues_example :
    ((reap_children busy 4 watching).0 ≡ ok tt)
    × ((reap_children busy 4 watching).1.pending_events
        ≡ Event.proc_event (pos 42) (WaitStatus.exited 0)
          ∷ Event.proc_event (pos 44) (WaitStatus.exited 1)
          ∷ [])
unfolding filter_by watched
reap_children-queues_example =
    reap_children-queues busy 4 watching
      ((pos 42, WaitStatus.exited 0)
        ∷ (pos 43, WaitStatus.signaled 9)
        ∷ (pos 44, WaitStatus.exited 1)
        ∷ [])
      (omega arith) (refl, (refl, (refl, inr refl))) ((refl, (refl, tt)), ((refl, tt), (tt, tt)))
