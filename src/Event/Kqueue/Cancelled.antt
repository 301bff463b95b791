-- ===== src/Event/Kqueue/Cancelled.antt =====
-- Timers of KqueueImplementation in src/event.h.
use relaunchd.Prelude.{
  ℕ, ◌≡◌, true, false, List, [], ◌∷◌, filter_by, refl, arith, nat_eq, nat_beq_iff,
}
use relaunchd.Prelude.Exec.{ok, err, system_error}
use relaunchd.Event.{Kernel}
use relaunchd.Event.Kqueue.{
  Knote, Kqueue, KqueueOs, registered, forget, monitor_timer, ignore_timer,
}

registered-forget : (n : Knote) (xs : List Knote) → registered n (forget n xs) ≡ false
unfolding registered forget filter_by
registered-forget n [] = refl
registered-forget n (x ∷ xs) = ground (arith, registered-forget n xs)

-- the queue without a timer
abbrev without : ℕ → Kernel Kqueue → Kernel Kqueue
without id k = record k {
  derived = record k.derived { knotes = forget (Knote.timer id) k.derived.knotes };
}

module _ (os : KqueueOs) where
  monitor_timer-registered :
      (timer_id milliseconds : ℕ) (k k' : Kernel Kqueue)
      → monitor_timer os timer_id milliseconds k ≡ (ok tt, k')
      → registered (Knote.timer timer_id) k'.derived.knotes ≡ true
  unfolding monitor_timer registered
  monitor_timer-registered timer_id milliseconds k k' h =
      ground (arith, h, nat_beq_iff timer_id timer_id)

  ignore_timer_known :
      (timer_id : ℕ) (k : Kernel Kqueue)
      → registered (Knote.timer timer_id) k.derived.knotes ≡ true
      → ignore_timer os timer_id k ≡ (ok tt, without timer_id k)
  unfolding ignore_timer
  ignore_timer_known timer_id k h = ground arith

  ignore_timer_unknown :
      (timer_id : ℕ) (k : Kernel Kqueue)
      → registered (Knote.timer timer_id) k.derived.knotes ≡ false
      → (ignore_timer os timer_id k).0 ≡ err system_error
  unfolding ignore_timer
  ignore_timer_unknown timer_id k h = ground arith

  -- A timer that `monitorTimer` has set can be cancelled: `ignoreTimer` returns, and the timer is not
  -- registered any more. A second call of it throws.
  pub ignore_timer-registered :
      (timer_id milliseconds : ℕ) (k k' : Kernel Kqueue)
      → monitor_timer os timer_id milliseconds k ≡ (ok tt, k')
      → let (r, t) = ignore_timer os timer_id k' in
        (r ≡ ok tt)
        × (registered (Knote.timer timer_id) t.derived.knotes ≡ false)
        × ((ignore_timer os timer_id t).0 ≡ err system_error)
  ignore_timer-registered timer_id milliseconds k k' h =
      let known = monitor_timer-registered timer_id milliseconds k k' h in
      let gone = registered-forget (Knote.timer timer_id) k'.derived.knotes in
      rw (ignore_timer_known timer_id k' known)
        (refl, gone, ignore_timer_unknown timer_id (without timer_id k') gone)
