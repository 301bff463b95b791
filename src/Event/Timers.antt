-- ===== src/Event/Timers.antt =====
-- EventManager::getNextTimerId and addTimer of src/event.h: the search for an identifier ends, and
-- the identifier is not in use.
use relaunchd.Prelude.{
  ◌==◌, ℕ, zero, suc, ◌+◌, ◌*◌, length, ◌≤◌, ◌<◌, ◌≡◌, refl, true, false, none, some, List, [], ◌∷◌,
  arith, ltb, nat_eq, nat_beq_iff, Bool-cases, inl, inr, if◌then◌else◌,
}
use relaunchd.Prelude.Assoc.{lookup, insert, contains, lookup-insert}
use relaunchd.Prelude.Exec.{ok}
use relaunchd.Event.{
  TimerCallback, EventManager, KernelEventInterface, next_timer_id, timer_fuel, int_max,
  get_next_timer_id, add_timer,
}

-- how many callbacks have an identifier above `n`
above : ℕ → List (ℕ × TimerCallback) → ℕ
above n [] = 0
above n ((k, c) ∷ m) = if ltb n k then suc (above n m) else above n m

above-lt-timer_fuel : (n : ℕ) (m : List (ℕ × TimerCallback)) → above n m < timer_fuel m
unfolding above
above-lt-timer_fuel n [] = omega arith
above-lt-timer_fuel n ((k, c) ∷ m) = ground (arith, above-lt-timer_fuel n m)

above_mono : (n : ℕ) (m : List (ℕ × TimerCallback)) → above (n + 2) m ≤ above n m
unfolding above
above_mono n [] = omega arith
above_mono n ((k, c) ∷ m) = ground (arith, above_mono n m)

-- a round passes over the identifier that was taken
above_lt :
    (n : ℕ) (m : List (ℕ × TimerCallback)) → contains (n + 1) m ≡ true → above (n + 2) m < above n m
unfolding above lookup
above_lt n [] h = cc
above_lt n ((k, c) ∷ m) h = ground (arith, above_lt n m, above_mono n m)

above-le-length : (n : ℕ) (m : List (ℕ × TimerCallback)) → above n m ≤ length m
unfolding above
above-le-length n [] = omega arith
above-le-length n ((k, c) ∷ m) = ground (arith, above-le-length n m)

next_round :
    (fuel n r : ℕ) (m : List (ℕ × TimerCallback))
    → contains (n + 1) m ≡ true
    → n + 1 < int_max
    → next_timer_id fuel m (n + 2) ≡ ok r
    → next_timer_id (suc fuel) m n ≡ ok r
unfolding next_timer_id
next_round fuel n r m used b p = ground (arith, used, b, p)

next_timer_id_lem :
    (fuel : ℕ) (m : List (ℕ × TimerCallback)) (n : ℕ)
    → above n m < fuel
    → n + 2 * above n m < int_max
    → (r : ℕ) × (next_timer_id fuel m n ≡ ok r) × (contains r m ≡ false) × (n < r)
unfolding next_timer_id
next_timer_id_lem zero m n h b = absurd (omega arith)
next_timer_id_lem (suc fuel) m n h b = elim (Bool-cases (contains (n + 1) m)) [
  | inl used ↦
      let lt = above_lt n m used in
      let (r, p, q, l) = next_timer_id_lem fuel m (n + 2) (omega (arith, lt)) (omega (arith, lt)) in
      (r, next_round fuel n r m used (omega (arith, lt)) p, q, omega arith)
  | inr free ↦ (n + 1, ground (arith, free), free, omega arith)
]

-- a result is an identifier that is not in use
next_timer_id_free :
    (fuel : ℕ) (m : List (ℕ × TimerCallback)) (n r : ℕ)
    → next_timer_id fuel m n ≡ ok r
    → contains r m ≡ false
unfolding next_timer_id
next_timer_id_free zero m n r h = cc
next_timer_id_free (suc fuel) m n r h = ground (arith, next_timer_id_free fuel m (n + 2) r)

module _ {I : Type 0} (kernel : KernelEventInterface I) where
  -- As long as `timer_id_max` with twice the number of timers is below INT_MAX, `getNextTimerId`
  -- returns without an overflow, with an identifier that is greater than `timer_id_max` and that no
  -- timer has; `timer_id_max` becomes this identifier.
  pub get_next_timer_id_lem :
      (e : EventManager I)
      → e.timer_id_max + 2 * length e.timer_callbacks < int_max
      → (id : ℕ) × (get_next_timer_id kernel e ≡ (ok id, record e { timer_id_max = id }))
        × (contains id e.timer_callbacks ≡ false)
        × (e.timer_id_max < id)
  unfolding get_next_timer_id
  get_next_timer_id_lem e b =
      let (id, p, q, l) =
        next_timer_id_lem (timer_fuel e.timer_callbacks) e.timer_callbacks e.timer_id_max
          (above-lt-timer_fuel e.timer_id_max e.timer_callbacks)
          (omega (arith, above-le-length e.timer_id_max e.timer_callbacks)) in
      (id, rw (p, get_next_timer_id) refl, q, l)

  -- the callbacks after a successful `addTimer`
  add_timer_callbacks :
      (e : EventManager I) (milliseconds id : ℕ) (callback : TimerCallback) (e' : EventManager I)
      → add_timer kernel milliseconds callback e ≡ (ok id, e')
      → (contains id e.timer_callbacks ≡ false)
        × (e'.timer_callbacks ≡ insert id callback e.timer_callbacks)
  unfolding add_timer get_next_timer_id
  add_timer_callbacks e milliseconds id callback e' h =
      ground (
        arith,
        next_timer_id_free (timer_fuel e.timer_callbacks) e.timer_callbacks e.timer_id_max id,
      )

  -- If `addTimer` returns an identifier, no timer had it, its callback is the new one, and every
  -- other timer has the callback that it had.
  pub add_timer_lem :
      (e : EventManager I) (milliseconds id j : ℕ) (callback : TimerCallback) (e' : EventManager I)
      → add_timer kernel milliseconds callback e ≡ (ok id, e')
      → (lookup id e.timer_callbacks ≡ none)
        × (lookup j e'.timer_callbacks
            ≡ (if id == j then some callback else lookup j e.timer_callbacks))
  add_timer_lem e milliseconds id j callback e' h =
      let (free, p) = add_timer_callbacks e milliseconds id callback e' h in
      (
        ground arith,
        rw p (ground (arith, lookup-insert id j callback e.timer_callbacks, nat_beq_iff id j)),
      )
