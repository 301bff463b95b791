-- ===== src/Job/Restarted.antt =====
-- src/job.cc: a job with KeepAlive comes back after the exit of its process.
use relaunchd.Prelude.{
  ◌≡◌, refl, ap, ◌∙◌, ℕ, ◌+◌, ◌-◌, ◌*◌, ◌%◌, ◌^◌, Bool, true, false, none, some, ◌∷◌, arith, ltb,
  nat_eq,
}
use relaunchd.Prelude.Assoc.{lookup}
use relaunchd.Prelude.Exec.{Result, ok, outcome, returned, threw}
use relaunchd.Event.{WaitStatus, TimerCallback, add_timer}
use relaunchd.Event.Timers.{add_timer_lem}
use relaunchd.Fsm.{FsmStatus}
use relaunchd.Os.{Call}
use relaunchd.Manifest.{Manifest}
use relaunchd.Job.{Job, Sys, Platform, States, Triggers, should_throttle}
use relaunchd.Job.Frame.{start_job-Frame, reap_child_process-Frame}
use relaunchd.Job.Process.{reap_child_process, start_job}
use relaunchd.Job.Timer.{start_after_throttle_interval, cancel_any_timer}
use relaunchd.Job.Machine.{fire, on_process_event, on_restart_timer, put_state}
use relaunchd.Job.Machine.Step.{step, fire-step}
use relaunchd.Job.Lifecycle.{reap-Reaped, reap_stopped}

module _ {I J : Type 0} (p : Platform I J) where
  -- both guards of the restarts see the clock on the same side of the end of the throttle interval
  abbrev Throttled : Sys I J → ℕ → Bool → Type 0
  Throttled s start b =
      (ltb (p.os.clock s.trace) (start + s.job.manifest.throttle_interval) ≡ b)
      × (ltb (p.os.clock (Call.clock_gettime ∷ s.trace)) (start + s.job.manifest.throttle_interval)
          ≡ b)

  abbrev ticked : Sys I J → Sys I J
  ticked s = record s { trace = Call.clock_gettime ∷ s.trace }

  -- KeepAlive, once the throttle interval is over: a new process
  exit-at_once :
      (s : Sys I J) (start : ℕ)
      → s.job.state ≡ States.running
      → s.job.manifest.keep_alive.always ≡ true
      → s.job.unload_requested ≡ false
      → s.job.started_at ≡ some start
      → Throttled s start false
      → (start_job p (ticked s)).0 ≡ ok tt
      → fire p Triggers.process_exited s ≡ (ok FsmStatus.success, (start_job p (ticked s)).1)
  unfolding step should_throttle
  exit-at_once s start r k u st (b1, b2) ok' =
      rw (fire-step p Triggers.process_exited s)
        (simp r (ground (arith, start_job-Frame p (ticked s))))

  exit-later :
      (s : Sys I J) (start : ℕ)
      → s.job.state ≡ States.running
      → s.job.manifest.keep_alive.always ≡ true
      → s.job.unload_requested ≡ false
      → s.job.started_at ≡ some start
      → Throttled s start true
      → (start_after_throttle_interval p (ticked (ticked s))).0 ≡ ok tt
      → fire p Triggers.process_exited s ≡ (
        ok FsmStatus.success,
        put_state States.waiting (start_after_throttle_interval p (ticked (ticked s))).1,
      )
  unfolding step should_throttle
  exit-later s start r k u st (b1, b2) ok' =
      rw (fire-step p Triggers.process_exited s) (simp r (ground arith))

  -- what `addTimer` is asked for
  abbrev restarting : Sys I J → TimerCallback
  restarting s = TimerCallback.restart_throttled s.job.manifest.label.value

  abbrev delay : Sys I J → ℕ → ℕ
  delay s start =
      ((start + s.job.manifest.throttle_interval) * 1000 + 2 ^ 64 - p.os.clock s.trace * 1000)
      % 2 ^ 64

  timer_set :
      (s : Sys I J) (start : ℕ)
      → s.job.started_at ≡ some start
      → (start_after_throttle_interval p s).0 ≡ ok tt
      → let t = (start_after_throttle_interval p s).1 in
        (id : ℕ) × (t.job.timer_id ≡ some id)
        × (lookup id t.events.timer_callbacks ≡ some (restarting s))
  unfolding start_after_throttle_interval
  timer_set s start st h =
      let (r, e) = add_timer p.kernel (delay s start) (restarting s) s.events in
      elim (outcome r) [
        | threw x n ↦ absurd (ground (arith, st, n, h))
        | returned id n ↦
            let (_, found) =
              add_timer_lem p.kernel s.events (delay s start) id id (restarting s) e
                (ap (λ x. (x, e)) n) in
            (id, ground (arith, st, n), ground (arith, st, n, found))
      ]

  fire-due :
      (s : Sys I J)
      → s.job.state ≡ States.waiting
      → s.job.timer_id ≡ none
      → (start_job p s).0 ≡ ok tt
      → fire p Triggers.start_requested s
        ≡ (ok FsmStatus.success, put_state States.running (start_job p s).1)
  unfolding step cancel_any_timer
  fire-due s w n h = rw (fire-step p Triggers.start_requested s) (simp w (ground (arith, n, h)))

  -- the job as its timer finds it
  abbrev due : Sys I J → Sys I J
  due s = record s { job = record s.job { timer_id = none } }

  restart_due :
      (s : Sys I J)
      → s.job.state ≡ States.waiting
      → (start_job p (due s)).0 ≡ ok tt
      → on_restart_timer p s ≡ (ok tt, put_state States.running (start_job p (due s)).1)
  unfolding on_restart_timer
  restart_due s w h = ground (arith, fire-due (due s) w refl h)

  -- what follows the exit: a new process at once, or a timer
  abbrev restarted : Bool → Sys I J → Result (Unit {0}) × Sys I J
  restarted false s = start_job p (ticked s)
  restarted true s = start_after_throttle_interval p (ticked (ticked s))

  abbrev pub ComesBack : Bool → Sys I J → Sys I J → Type 0
  ComesBack false s t = (t ≡ (start_job p (ticked s)).1) × (t.job.state ≡ States.running)
  ComesBack true s t =
      (t.job.state ≡ States.waiting)
      × ((id : ℕ) × (t.job.timer_id ≡ some id)
          × (lookup id t.events.timer_callbacks ≡ some (restarting s)))
      × ((later : Sys I J)
          → later.job ≡ t.job
          → (start_job p (due later)).0 ≡ ok tt
          → on_restart_timer p later
            ≡ (ok tt, put_state States.running (start_job p (due later)).1))

  back_at_once :
      (s : Sys I J) → s.job.state ≡ States.running → ComesBack false s (start_job p (ticked s)).1
  back_at_once s r = (refl, ground (arith, r, start_job-Frame p (ticked s)))

  back_later :
      (s : Sys I J) (start : ℕ)
      → s.job.started_at ≡ some start
      → (restarted true s).0 ≡ ok tt
      → ComesBack true s (put_state States.waiting (restarted true s).1)
  back_later s start st h =
      let w : Sys I J = put_state States.waiting (restarted true s).1 in
      (
        refl,
        timer_set (ticked (ticked s)) start st h,
        λ later same ok'. restart_due later (ap (λ (j : Job). j.state) same) ok',
      )

  exit-ComesBack :
      (throttled : Bool) (s : Sys I J) (start : ℕ)
      → s.job.state ≡ States.running
      → s.job.manifest.keep_alive.always ≡ true
      → s.job.unload_requested ≡ false
      → s.job.started_at ≡ some start
      → Throttled s start throttled
      → (restarted throttled s).0 ≡ ok tt
      → let (r, t) = fire p Triggers.process_exited s in
        (r ≡ ok FsmStatus.success) × ComesBack throttled s t
  exit-ComesBack false s start r k u st b h =
      rw (exit-at_once s start r k u st b h) (refl, back_at_once s r)
  exit-ComesBack true s start r k u st b h =
      rw (exit-later s start r k u st b h) (refl, back_later s start st h)

  exited_event :
      (status : WaitStatus) (s : Sys I J)
      → (reap_child_process p status s).0 ≡ ok tt
      → let u = (reap_child_process p status s).1 in
        (fire p Triggers.process_exited u).0 ≡ ok FsmStatus.success
        → on_process_event p status s ≡ (ok tt, (fire p Triggers.process_exited u).1)
  unfolding on_process_event
  exited_event (WaitStatus.stopped n) s ok' h = absurd (reap_stopped p n s ok')
  exited_event status s ok' h = ground (arith, ok', h)

  -- When the process of a running job with KeepAlive ends that nobody asked to unload, is reaped, and both
  -- guards find the throttle interval over, or both do not: the job is started again at once, or it waits
  -- for a timer whose callback is set, and which starts it again whenever it goes off before anything else
  -- happens to the job. This holds where these steps themselves do not fail.
  pub on_process_event-ComesBack :
      (throttled : Bool) (status : WaitStatus) (s : Sys I J) (start : ℕ)
      → (reap_child_process p status s).0 ≡ ok tt
      → s.job.state ≡ States.running
      → s.job.manifest.keep_alive.always ≡ true
      → s.job.unload_requested ≡ false
      → s.job.started_at ≡ some start
      → let u = (reap_child_process p status s).1 in
        Throttled u start throttled
        → (restarted throttled u).0 ≡ ok tt
        → let (r, t) = on_process_event p status s in (r ≡ ok tt) × ComesBack throttled u t
  on_process_event-ComesBack throttled status s start ok' r k n st b h =
      let u = (reap_child_process p status s).1 in
      let f = reap_child_process-Frame p status s in
      let same = reap-Reaped p status s ok' in
      let (done, back) =
        exit-ComesBack throttled u start (f.state ∙ r)
          (ap (λ (m : Manifest). m.keep_alive.always) f.manifest ∙ k) (f.unload_requested ∙ n)
          (same.started_at ∙ st) b h in
      rw (exited_event status s ok' done) (refl, back)
