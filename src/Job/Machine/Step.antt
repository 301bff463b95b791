-- ===== src/Job/Machine/Step.antt =====
-- The state machine of Job::initFSM in src/job.cc, read as one function of the state and the trigger.
use relaunchd.Prelude.{
  ℕ, ◌+◌, Bool, true, false, not, ◌≡◌, refl, Option, none, some, ◌&&◌, ◌||◌, if◌then◌else◌, arith,
  Bool-cases, Option-cases, inl, inr, ltb, ◌∷◌,
}
use relaunchd.Prelude.Assoc.{is_some}
use relaunchd.Prelude.Exec.{Exec, Result, ok, err, pure, ◌>>=◌, ◌>>◌, undefined_behaviour}
use relaunchd.Fsm.{FsmStatus}
use relaunchd.Os.{Call}
use relaunchd.Job.{Sys, Platform, States, Triggers, is_off, is_disabled, should_throttle}
use relaunchd.StateFile.Overrides.{override_of}
use relaunchd.Job.Process.{start_job, kill_job, sigterm}
use relaunchd.Job.Timer.{start_after_throttle_interval, schedule_periodic_job, cancel_any_timer}
use relaunchd.Job.Machine.{put_state, fire, submit_delete}

module _ {I J : Type 0} (p : Platform I J) where
  -- the action, then the new state
  abbrev pub into : States → Exec (Sys I J) Unit → Exec (Sys I J) FsmStatus
  into st action = action >> (λ s. (ok FsmStatus.success, put_state st s))

  abbrev pub blocked : Exec (Sys I J) FsmStatus
  blocked = pure FsmStatus.blocked_by_guard

  -- Bootstrap: a disabled job stays as it is
  abbrev pub on_bootstrap : Bool → Exec (Sys I J) FsmStatus
  on_bootstrap true s = blocked s
  on_bootstrap false s =
      if s.job.manifest.run_at_load || s.job.manifest.keep_alive.always
      then into States.running (start_job p) s
      else if is_some s.job.manifest.start_interval && not s.job.manifest.run_at_load
      then into States.waiting (schedule_periodic_job p) s
      else blocked s

  -- ProcessExited without KeepAlive
  abbrev pub on_exit : Exec (Sys I J) FsmStatus
  on_exit s =
      if s.job.unload_requested
      then into States.unloaded (submit_delete p) s
      else if is_some s.job.manifest.start_interval
      then blocked s
      else into States.exited (pure tt) s

  -- ProcessExited with KeepAlive, after both readings of the clock
  abbrev pub on_throttled : Bool → Exec (Sys I J) FsmStatus
  on_throttled throttled s =
      if throttled && not s.job.unload_requested
      then into States.waiting (start_after_throttle_interval p) s
      else if s.job.unload_requested
      then into States.unloaded (submit_delete p) s
      else blocked s

  abbrev pub on_kept_alive : Bool → Exec (Sys I J) FsmStatus
  on_kept_alive throttled s =
      if not throttled && not s.job.unload_requested
      then into States.running (start_job p) s
      else (should_throttle p >>= on_throttled) s

  unfoldable pub step : States → Triggers → Exec (Sys I J) FsmStatus
  step States.loaded Triggers.bootstrap s = (is_disabled p >>= on_bootstrap) s
  step States.loaded Triggers.start_requested s = into States.running (start_job p) s
  step States.loaded Triggers.unload_requested s = into States.unloaded (submit_delete p) s
  step States.waiting Triggers.start_requested s =
      into States.running (cancel_any_timer p >> start_job p) s
  step States.waiting Triggers.unload_requested s =
      into States.unloaded (cancel_any_timer p >> submit_delete p) s
  step States.running Triggers.stop_requested s =
      into States.running (kill_job p sigterm >> pure tt) s
  step States.running Triggers.process_exited s =
      if s.job.manifest.keep_alive.always
      then (should_throttle p >>= on_kept_alive) s
      else on_exit s
  step States.exited Triggers.unload_requested s = into States.unloaded (submit_delete p) s
  step _ _ s = pure FsmStatus.no_matching_trigger s

  -- `isDisabled` changes nothing
  pub is_disabled_result : (s : Sys I J) → (r : Result Bool) × (is_disabled p s ≡ (r, s))
  unfolding is_disabled
  is_disabled_result s =
      go (override_of p.json s.job.manifest.label.value s.state_file.current_value)
    where
      go :
          (o : Result (Option Bool))
          → (r : Result Bool) × (◌≡◌ {A = Result Bool × Sys I J}
              (elim o [ ok b ↦ (ok (is_off p s.job.manifest.disabled b), s) | err x ↦ (err x, s) ])
              (r, s))
      go (ok b) = (ok (is_off p s.job.manifest.disabled b), refl)
      go (err x) = (err x, refl)

  -- `s` with the fields that the guards read written out
  abbrev with_flags : Sys I J → States → Bool → Bool → Option ℕ → Bool → Sys I J
  with_flags s st run keep interval unload = record s {
    job = record s.job {
      state = st;
      unload_requested = unload;
      manifest = record s.job.manifest {
        run_at_load = run;
        start_interval = interval;
        keep_alive = record { always = keep };
      };
    };
  }

  bootstrap_start :
      (s t : Sys I J) (r : Result Unit)
      → is_disabled p (put_state States.loaded s) ≡ (ok false, put_state States.loaded s)
      → (s.job.manifest.run_at_load || s.job.manifest.keep_alive.always) ≡ true
      → start_job p (put_state States.loaded s) ≡ (r, t)
      → fire p Triggers.bootstrap (put_state States.loaded s)
        ≡ step States.loaded Triggers.bootstrap (put_state States.loaded s)
  unfolding fire step
  bootstrap_start s t (ok u) e w h = rw (e, w, h) refl
  bootstrap_start s t (err x) e w h = rw (e, w, h) refl

  bootstrap_wait :
      (s : Sys I J) (run keep unload : Bool) (interval : Option ℕ)
      → let s' = with_flags s States.loaded run keep interval unload in
        is_disabled p s' ≡ (ok false, s')
        → (run || keep) ≡ false
        → fire p Triggers.bootstrap s' ≡ step States.loaded Triggers.bootstrap s'
  unfolding fire step
  bootstrap_wait s true keep unload interval e w = cc
  bootstrap_wait s false true unload interval e w = cc
  bootstrap_wait s false false unload none e w = rw (e, e) refl
  bootstrap_wait s false false unload (some n) e w = rw (e, e) refl

  step_bootstrap :
      (s : Sys I J) (r : Result Bool)
      → is_disabled p (put_state States.loaded s) ≡ (r, put_state States.loaded s)
      → fire p Triggers.bootstrap (put_state States.loaded s)
        ≡ step States.loaded Triggers.bootstrap (put_state States.loaded s)
  unfolding fire step
  step_bootstrap s (err x) e = rw e refl
  step_bootstrap s (ok true) e = rw (e, e) refl
  step_bootstrap s (ok false) e =
      elim (Bool-cases (s.job.manifest.run_at_load || s.job.manifest.keep_alive.always)) [
        | inl w ↦ bootstrap_start s _ _ e w refl
        | inr w ↦
            bootstrap_wait s s.job.manifest.run_at_load s.job.manifest.keep_alive.always
              s.job.unload_requested s.job.manifest.start_interval e w
      ]

  -- the state after a reading of the clock
  abbrev pub tick : Sys I J → Sys I J
  tick s = record s { trace = Call.clock_gettime ∷ s.trace }

  -- `shouldThrottle` reads the clock and changes nothing else
  pub should_throttle_result :
      (s : Sys I J) → (r : Result Bool) × (should_throttle p s ≡ (r, tick s))
  unfolding should_throttle
  should_throttle_result s = elim (Option-cases s.job.started_at) [
    | inl e ↦ (err undefined_behaviour, ground arith)
    | inr (t, e) ↦
        (ok (ltb (p.os.clock s.trace) (t + s.job.manifest.throttle_interval)), ground arith)
  ]

  -- ProcessExited of a job with KeepAlive, by what the readings of the clock say
  exit_second :
      (s : Sys I J) (run unload : Bool) (interval : Option ℕ) (r : Result Bool)
      → let s' = with_flags s States.running run true interval unload in
        should_throttle p s' ≡ (ok true, tick s')
        → should_throttle p (tick s') ≡ (r, tick (tick s'))
        → fire p Triggers.process_exited s' ≡ step States.running Triggers.process_exited s'
  unfolding fire step
  exit_second s run unload interval (err x) e h = rw (e, h) refl
  exit_second s run true interval (ok true) e h = rw (e, h) refl
  exit_second s run false interval (ok true) e h = rw (e, h) refl
  exit_second s run true interval (ok false) e h = rw (e, h) refl
  exit_second s run false interval (ok false) e h = rw (e, h) refl

  exit_again :
      (s : Sys I J) (run : Bool) (interval : Option ℕ) (r : Result Bool)
      → let s' = with_flags s States.running run true interval true in
        should_throttle p s' ≡ (ok false, tick s')
        → should_throttle p (tick s') ≡ (r, tick (tick s'))
        → fire p Triggers.process_exited s' ≡ step States.running Triggers.process_exited s'
  unfolding fire step
  exit_again s run interval (err x) e h = rw (e, h) refl
  exit_again s run interval (ok true) e h = rw (e, h) refl
  exit_again s run interval (ok false) e h = rw (e, h) refl

  exit_first :
      (s : Sys I J) (run unload : Bool) (interval : Option ℕ) (r : Result Bool)
      → let s' = with_flags s States.running run true interval unload in
        should_throttle p s' ≡ (r, tick s')
        → fire p Triggers.process_exited s' ≡ step States.running Triggers.process_exited s'
  unfolding fire step
  exit_first s run unload interval (err x) e = rw e refl
  exit_first s run false interval (ok false) e = rw e refl
  exit_first s run true interval (ok false) e =
      let (r, h) =
        should_throttle_result (tick (with_flags s States.running run true interval true)) in
      exit_again s run interval r e h
  exit_first s run unload interval (ok true) e =
      let (r, h) =
        should_throttle_result (tick (with_flags s States.running run true interval unload)) in
      exit_second s run unload interval r e h

  step_exit :
      (s : Sys I J) (run keep unload : Bool) (interval : Option ℕ)
      → let s' = with_flags s States.running run keep interval unload in
        fire p Triggers.process_exited s' ≡ step States.running Triggers.process_exited s'
  unfolding fire step
  step_exit s run true unload interval =
      let (r, e) = should_throttle_result (with_flags s States.running run true interval unload) in
      exit_first s run unload interval r e
  step_exit s run false true none = refl
  step_exit s run false true (some n) = refl
  step_exit s run false false none = refl
  step_exit s run false false (some n) = refl

  -- cancelling the timer, then starting
  step-waiting :
      (s t : Sys I J) (r : Result Unit)
      → cancel_any_timer p (put_state States.waiting s) ≡ (r, t)
      → fire p Triggers.start_requested (put_state States.waiting s)
        ≡ step States.waiting Triggers.start_requested (put_state States.waiting s)
  unfolding fire step
  step-waiting s t (ok u) e = rw e refl
  step-waiting s t (err x) e = rw e refl

  step_at :
      (st : States) (t : Triggers) (s : Sys I J)
      → fire p t (put_state st s) ≡ step st t (put_state st s)
  unfolding fire step
  step_at States.loaded Triggers.bootstrap s =
      let (r, e) = is_disabled_result (put_state States.loaded s) in step_bootstrap s r e
  step_at States.running Triggers.process_exited s =
      step_exit s s.job.manifest.run_at_load s.job.manifest.keep_alive.always s.job.unload_requested
        s.job.manifest.start_interval
  step_at States.waiting Triggers.start_requested s = step-waiting s _ _ refl
  step_at States.exited Triggers.unload_requested s = refl
  step_at States.unloaded Triggers.bootstrap s = refl
  step_at _ _ s = refl

  -- The transitions of `initFSM` do, in any state and on any trigger, what `step` says: the trigger
  -- that the first action sends to its own machine included.
  pub fire-step : (t : Triggers) (s : Sys I J) → fire p t s ≡ step s.job.state t s
  fire-step t s = step_at s.job.state t s
