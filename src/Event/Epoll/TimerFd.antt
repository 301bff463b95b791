-- ===== src/Event/Epoll/TimerFd.antt =====
-- EpollImplementation::ignoreTimer of src/event.h, and what its exception does to a job.
use relaunchd.Prelude.{ℕ, ◌≡◌, false, none, some, arith, nat_eq, nat_beq_iff}
use relaunchd.Prelude.Assoc.{lookup, contains, lookup-insert, lookup-erase}
use relaunchd.Prelude.Exec.{ok, err, system_error}
use relaunchd.Event.{Kernel}
use relaunchd.Event.Epoll.{Epoll, EpollOs, member, monitor_timer, ignore_timer}

module _ (os : EpollOs) where
  ignore_timer-known :
      (timer_id tfd : ℕ) (k : Kernel Epoll)
      → lookup timer_id k.derived.timerfd_map ≡ some tfd
      → member tfd k.derived.epfd_set ≡ false
      → (ignore_timer os timer_id k).0 ≡ err system_error
  unfolding ignore_timer
  ignore_timer-known timer_id tfd k h e = ground arith

  ignore_timer-forgets :
      (timer_id tfd : ℕ) (k : Kernel Epoll)
      → lookup timer_id k.derived.timerfd_map ≡ some tfd
      → lookup timer_id (ignore_timer os timer_id k).1.derived.timerfd_map ≡ none
  unfolding ignore_timer
  ignore_timer-forgets timer_id tfd k h =
      ground
        (arith, lookup-erase timer_id timer_id k.derived.timerfd_map, nat_beq_iff timer_id timer_id)

  monitor_timer-known :
      (timer_id milliseconds tfd : ℕ) (k k' : Kernel Epoll)
      → contains timer_id k.derived.timerfd_map ≡ false
      → os.timerfd_create k.derived.calls ≡ some tfd
      → monitor_timer os timer_id milliseconds k ≡ (ok tt, k')
      → (lookup timer_id k'.derived.timerfd_map ≡ some tfd)
        × (k'.derived.epfd_set ≡ k.derived.epfd_set)
  unfolding monitor_timer
  monitor_timer-known timer_id milliseconds tfd k k' n c h = ground (
    arith,
    lookup-insert timer_id timer_id tfd k.derived.timerfd_map,
    nat_beq_iff timer_id timer_id,
  )

  -- A timer that `monitorTimer` has set cannot be cancelled: its descriptor is none of those in the interest
  -- list of `epfd`, so that `ignoreTimer` throws, though it forgets the timer.
  pub ignore_timer-monitor_timer :
      (timer_id milliseconds tfd : ℕ) (k k' : Kernel Epoll)
      → contains timer_id k.derived.timerfd_map ≡ false
      → os.timerfd_create k.derived.calls ≡ some tfd
      → member tfd k.derived.epfd_set ≡ false
      → monitor_timer os timer_id milliseconds k ≡ (ok tt, k')
      → let (r, t) = ignore_timer os timer_id k' in
        (r ≡ err system_error) × (lookup timer_id t.derived.timerfd_map ≡ none)
  ignore_timer-monitor_timer timer_id milliseconds tfd k k' n c f h =
      let (m, e) = monitor_timer-known timer_id milliseconds tfd k k' n c h in
      (ignore_timer-known timer_id tfd k' m (rw e f), ignore_timer-forgets timer_id tfd k' m)
