-- ===== src/Event/Epoll/Reaping.antt =====
-- The children that EpollImplementation::getSignalEvents of src/event.h reaps, and the events that
-- come of it.
use mathlib.Core.List.{append_assoc, append-nil}
use relaunchd.Prelude.{
  ℕ, zero, suc, ◌<◌, ◌≡◌, refl, sym, ◌∙◌, ap, Bool, true, false, List, [], ◌∷◌, ◌++◌, map, ◌⊎◌, inl,
  inr, All, arith, ◌==◌, length, filter_by, Bool-cases, if◌then◌else◌,
}
use relaunchd.Prelude.Exec.{ok}
use relaunchd.Prelude.Int.{ℤ, int_eq, int_beq_iff}
use relaunchd.Event.{Kernel, Event, WaitStatus}
use relaunchd.Event.Epoll.{Epoll, EpollOs, Reaped, watched, unwatch}
use relaunchd.Event.Epoll.Wait.{reap_children, note_child}

abbrev Children : Type 0
Children = List (ℤ × WaitStatus)

-- from call `n` on `waitpid` answers these children, and then that there is no other
abbrev pub Answers : EpollOs → ℕ → Children → Type 0
Answers os n [] = (os.wait_any n ≡ Reaped.nothing) ⊎ (os.wait_any n ≡ Reaped.no_child)
Answers os n ((pid, status) ∷ rest) =
    (os.wait_any n ≡ Reaped.child pid status) × Answers os (suc n) rest

-- no process identifier occurs twice
abbrev pub AllDistinct : Children → Type 0
AllDistinct [] = Unit
AllDistinct ((pid, status) ∷ rest) = All (λ c. (pid == c.0) ≡ false) rest × AllDistinct rest

abbrev pub event_of : ℤ × WaitStatus → Event
event_of (pid, status) = Event.proc_event pid status

abbrev pub is_watched : List ℤ → ℤ × WaitStatus → Bool
is_watched pids c = watched c.0 pids

watched-unwatch :
    (pid other : ℤ) (pids : List ℤ)
    → watched other (unwatch pid pids) ≡ (if pid == other then false else watched other pids)
unfolding watched unwatch filter_by
watched-unwatch pid other [] = ground arith
watched-unwatch pid other (p ∷ pids) = ground (
  arith,
  watched-unwatch pid other pids,
  int_beq_iff p pid,
  int_beq_iff p other,
  int_beq_iff pid other,
)

-- a child that is not watched any more does not matter for the others
filter_by-unwatch :
    (pid : ℤ) (pids : List ℤ) (rest : Children)
    → All (λ c. (pid == c.0) ≡ false) rest
    → filter_by (is_watched (unwatch pid pids)) rest ≡ filter_by (is_watched pids) rest
unfolding filter_by
filter_by-unwatch pid pids [] h = refl
filter_by-unwatch pid pids ((p, s) ∷ rest) (h, hs) =
    ground (arith, filter_by-unwatch pid pids rest hs, watched-unwatch pid p pids, h)

abbrev called : Kernel Epoll → Kernel Epoll
called k = record k { derived = record k.derived { calls = suc k.derived.calls } }

abbrev noted : ℤ → WaitStatus → Kernel Epoll → Kernel Epoll
noted pid status k = record k {
  pending_events = k.pending_events ++ (Event.proc_event pid status ∷ []);
  derived = record k.derived { watch_pids = unwatch pid k.derived.watch_pids };
}

module _ (os : EpollOs) where
  note_child-watched :
      (pid : ℤ) (status : WaitStatus) (k : Kernel Epoll)
      → watched pid k.derived.watch_pids ≡ true
      → note_child os pid status k ≡ (ok tt, noted pid status k)
  unfolding note_child
  note_child-watched pid status k h = ground arith

  note_child_unwatched :
      (pid : ℤ) (status : WaitStatus) (k : Kernel Epoll)
      → watched pid k.derived.watch_pids ≡ false
      → note_child os pid status k ≡ (ok tt, k)
  unfolding note_child
  note_child_unwatched pid status k h = ground arith

  reap_children-end :
      (fuel : ℕ) (k : Kernel Epoll)
      → Answers os k.derived.calls []
      → reap_children os (suc fuel) k ≡ (ok tt, called k)
  unfolding reap_children
  reap_children-end fuel k (inl h) = rw h refl
  reap_children-end fuel k (inr h) = rw h refl

  reap_children-child :
      (fuel : ℕ) (k k' : Kernel Epoll) (pid : ℤ) (status : WaitStatus)
      → os.wait_any k.derived.calls ≡ Reaped.child pid status
      → note_child os pid status (called k) ≡ (ok tt, k')
      → reap_children os (suc fuel) k ≡ reap_children os fuel k'
  unfolding reap_children
  reap_children-child fuel k k' pid status h n = rw (h, n) refl

  -- the events that are pending once the children are reaped
  abbrev Queues : ℕ → Kernel Epoll → Children → Type 0
  Queues fuel k children =
      ((reap_children os fuel k).0 ≡ ok tt)
      × ((reap_children os fuel k).1.pending_events
          ≡ k.pending_events ++ map event_of (filter_by (is_watched k.derived.watch_pids) children))

  queue_watched :
      (fuel : ℕ) (k : Kernel Epoll) (pid : ℤ) (status : WaitStatus) (rest : Children)
      → os.wait_any k.derived.calls ≡ Reaped.child pid status
      → watched pid k.derived.watch_pids ≡ true
      → All (λ c. (pid == c.0) ≡ false) rest
      → Queues fuel (noted pid status (called k)) rest
      → Queues (suc fuel) k ((pid, status) ∷ rest)
  unfolding filter_by
  queue_watched fuel k pid status rest h w new (r, e) =
      rw
        (
          reap_children-child fuel k (noted pid status (called k)) pid status h
              (note_child-watched pid status (called k) w),
          w,
        )
        (
          r,
          e
              ∙ ap
                  (λ cs.
                    (k.pending_events ++ (Event.proc_event pid status ∷ [])) ++ map event_of cs)
                  (filter_by-unwatch pid k.derived.watch_pids rest new)
              ∙ append_assoc k.pending_events (Event.proc_event pid status ∷ []) _,
        )

  queue_unwatched :
      (fuel : ℕ) (k : Kernel Epoll) (pid : ℤ) (status : WaitStatus) (rest : Children)
      → os.wait_any k.derived.calls ≡ Reaped.child pid status
      → watched pid k.derived.watch_pids ≡ false
      → Queues fuel (called k) rest
      → Queues (suc fuel) k ((pid, status) ∷ rest)
  unfolding filter_by
  queue_unwatched fuel k pid status rest h w q =
      rw
        (
          reap_children-child fuel k (called k) pid status h
              (note_child_unwatched pid status (called k) w),
          w,
        )
        q

  -- Where `waitpid` reaps some children, no process identifier twice, and then says that there is no
  -- other, and the fuel is more than their number: the loop ends, and it has queued an event for
  -- each of them that is watched, with its status and in the order they were reaped, and no other.
  pub reap_children-queues :
      (fuel : ℕ) (k : Kernel Epoll) (children : Children)
      → length children < fuel
      → Answers os k.derived.calls children
      → AllDistinct children
      → ((reap_children os fuel k).0 ≡ ok tt)
        × ((reap_children os fuel k).1.pending_events
            ≡ k.pending_events
              ++ map event_of (filter_by (is_watched k.derived.watch_pids) children))
  unfolding filter_by
  reap_children-queues zero k children f a ds = absurd (omega (arith, f))
  reap_children-queues (suc fuel) k [] f a ds =
      rw (reap_children-end fuel k a) (refl, sym (append-nil k.pending_events))
  reap_children-queues (suc fuel) k ((pid, status) ∷ rest) f (h, a) (new, ds) =
      elim (Bool-cases (watched pid k.derived.watch_pids)) [
        | inl w ↦
            queue_watched fuel k pid status rest h w new
              (reap_children-queues fuel (noted pid status (called k)) rest (omega (arith, f)) a ds)
        | inr w ↦
            queue_unwatched fuel k pid status rest h w
              (reap_children-queues fuel (called k) rest (omega (arith, f)) a ds)
      ]
