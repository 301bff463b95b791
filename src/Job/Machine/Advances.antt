-- ===== src/Job/Machine/Advances.antt =====
-- src/job.cc: what no later step of a job takes back.
use relaunchd.Prelude.{
  Bool, true, false, not, ◌&&◌, ◌≡◌, refl, none, List, [], ◌∷◌, arith, Bool-cases, inl, inr,
}
use relaunchd.Prelude.Exec.{Result, ok, err, ◌>>=◌}
use relaunchd.Event.{WaitStatus}
use relaunchd.Job.{Job, Sys, Platform, States, Triggers, is_disabled, should_throttle}
use relaunchd.Job.Frame.{start_job-Frame, reap_child_process-Frame, kill_job-job}
use relaunchd.Job.Process.{sigterm, reap_child_process}
use relaunchd.Job.Timer.{start_after_throttle_interval, schedule_periodic_job, cancel_any_timer}
use relaunchd.Job.Machine.{
  fire, unload_job, on_process_event, on_restart_timer, on_periodic_timer, Happening, react, live,
  force_unload_job,
}
use relaunchd.Job.Machine.Step.{
  step, fire-step, is_disabled_result, should_throttle_result, tick, on_throttled, on_kept_alive,
}
use relaunchd.Job.Machine.Timed.{kill_now-Frame}

-- the manifest stays, a request to unload stays, the state Unloaded stays
pub record Advances (a b : Job) : Type 0 where
  pub manifest : b.manifest ≡ a.manifest
  pub requested : a.unload_requested ≡ true → b.unload_requested ≡ true
  pub final : a.state ≡ States.unloaded → b.state ≡ States.unloaded

Advances-refl : (a : Job) → Advances a a
Advances-refl a = record { manifest = refl; requested = λ h. h; final = λ h. h }

pub Advances-trans : (a b c : Job) → Advances a b → Advances b c → Advances a c
Advances-trans a b c h k = record {
  manifest = cc (h.manifest, k.manifest);
  requested = λ e. k.requested (h.requested e);
  final = λ e. k.final (h.final e);
}

-- a step that may change the state of a job that is not unloaded
record Keeps (a b : Job) : Type 0 where
  manifest : b.manifest ≡ a.manifest
  unload_requested : b.unload_requested ≡ a.unload_requested

module _ {I J : Type 0} (p : Platform I J) where
  cancel_any_timer-Keeps : (s : Sys I J) → Keeps s.job (cancel_any_timer p s).1.job
  unfolding cancel_any_timer
  cancel_any_timer-Keeps s = ground arith

  bootstrap-Keeps :
      (s : Sys I J) (r : Result Bool)
      → is_disabled p s ≡ (r, s)
      → Keeps s.job (step p States.loaded Triggers.bootstrap s).1.job
  unfolding step schedule_periodic_job
  bootstrap-Keeps s (err x) e = rw e (ground arith)
  bootstrap-Keeps s (ok true) e = rw e (ground arith)
  bootstrap-Keeps s (ok false) e = rw e (ground (arith, start_job-Frame p s))

  throttled-Keeps : (s : Sys I J) (b : Bool) → Keeps s.job (on_throttled p b s).1.job
  unfolding start_after_throttle_interval
  throttled-Keeps s b = ground arith

  second-Keeps :
      (s : Sys I J) (r : Result Bool)
      → should_throttle p s ≡ (r, tick p s)
      → Keeps s.job ((should_throttle p >>= on_throttled p) s).1.job
  second-Keeps s (err x) t = rw t (ground arith)
  second-Keeps s (ok b) t = rw t (throttled-Keeps (tick p s) b)

  kept_alive-Keeps : (s : Sys I J) (b : Bool) → Keeps s.job (on_kept_alive p b s).1.job
  kept_alive-Keeps s b =
      let (r, t) = should_throttle_result p s in
      let second : Keeps s.job ((should_throttle p >>= on_throttled p) s).1.job =
        second-Keeps s r t in
      elim (Bool-cases (not b && not s.job.unload_requested)) [
        | inl start ↦ rw start (ground (arith, start_job-Frame p s))
        | inr other ↦ rw other second
      ]

  exit-Keeps :
      (s : Sys I J) (r : Result Bool)
      → should_throttle p s ≡ (r, tick p s)
      → Keeps s.job ((should_throttle p >>= on_kept_alive p) s).1.job
  exit-Keeps s (err x) t = rw t (ground arith)
  exit-Keeps s (ok b) t = rw t (kept_alive-Keeps (tick p s) b)

  step-Keeps : (st : States) (t : Triggers) (s : Sys I J) → Keeps s.job (step p st t s).1.job
  unfolding step
  step-Keeps States.loaded Triggers.bootstrap s =
      let (r, d) = is_disabled_result p s in bootstrap-Keeps s r d
  step-Keeps States.waiting Triggers.start_requested s =
      ground (arith, cancel_any_timer-Keeps s, start_job-Frame p (cancel_any_timer p s).1)
  step-Keeps States.waiting Triggers.unload_requested s = ground (arith, cancel_any_timer-Keeps s)
  step-Keeps States.running Triggers.process_exited s =
      elim (Bool-cases s.job.manifest.keep_alive.always) [
        | inl keep ↦ let (r, t) = should_throttle_result p s in simp keep (exit-Keeps s r t)
        | inr keep ↦ simp keep (ground arith)
      ]
  step-Keeps States.running Triggers.stop_requested s = ground (arith, kill_job-job p sigterm s)
  step-Keeps States.loaded Triggers.start_requested s = ground (arith, start_job-Frame p s)
  step-Keeps _ _ s = ground arith

  step-final : (t : Triggers) (s : Sys I J) → (step p States.unloaded t s).1 ≡ s
  unfolding step
  step-final t s = ground arith

  pub fire-Advances : (t : Triggers) (s : Sys I J) → Advances s.job (fire p t s).1.job
  fire-Advances t s =
      let k = step-Keeps s.job.state t s in
      rw (fire-step p t s) (record {
        manifest = k.manifest;
        requested = λ h. cc (k.unload_requested, h);
        final = λ h. simp h (cc (step-final t s, h));
      })

  unload-Advances : (force : Bool) (s : Sys I J) → Advances s.job (unload_job p force s).1.job
  unfolding unload_job
  unload-Advances force s =
      let s' : Sys I J = record s { job = record s.job { unload_requested = true } } in
      let (r, d) = is_disabled_result p s' in
      let h1 = fire-Advances Triggers.stop_requested s' in
      let h2 = fire-Advances Triggers.unload_requested (fire p Triggers.stop_requested s').1 in
      record {
        manifest = ground (arith, d, h1.manifest, h2.manifest);
        requested = ground (arith, d, h1.requested, h2.requested);
        final = ground (arith, d, h1.final, h2.final);
      }

  process_event-Advances :
      (status : WaitStatus) (s : Sys I J) → Advances s.job (on_process_event p status s).1.job
  unfolding on_process_event
  process_event-Advances (WaitStatus.stopped n) s = Advances-refl s.job
  process_event-Advances status s =
      let t = (reap_child_process p status s).1 in
      let f = reap_child_process-Frame p status s in
      let h = fire-Advances Triggers.process_exited t in
      record {
        manifest = ground (arith, f.manifest, h.manifest);
        requested = ground (arith, f.unload_requested, h.requested);
        final = ground (arith, f.state, h.final);
      }

  restart-Advances : (s : Sys I J) → Advances s.job (on_restart_timer p s).1.job
  unfolding on_restart_timer
  restart-Advances s =
      let t : Sys I J = record s { job = record s.job { timer_id = none } } in
      let h = fire-Advances Triggers.start_requested t in
      record {
        manifest = ground (arith, h.manifest);
        requested = ground (arith, h.requested);
        final = ground (arith, h.final);
      }

  periodic-Advances : (s : Sys I J) → Advances s.job (on_periodic_timer p s).1.job
  unfolding on_periodic_timer
  periodic-Advances s =
      ground (arith, start_job-Frame p (record s { job = record s.job { timer_id = none } }))

  force_unload-Advances : (s : Sys I J) → Advances s.job (force_unload_job p s).1.job
  unfolding force_unload_job cancel_any_timer
  force_unload-Advances s = ground (arith, kill_now-Frame p s)

  pub react-Advances : (h : Happening I J) (s : Sys I J) → Advances s.job (react p h s).job
  unfolding react
  react-Advances Happening.bootstrapped s = fire-Advances Triggers.bootstrap s
  react-Advances Happening.restart_due s = restart-Advances s
  react-Advances Happening.periodic_due s = periodic-Advances s
  react-Advances Happening.force_unloaded s = force_unload-Advances s
  react-Advances (Happening.unloaded force) s = unload-Advances force s
  react-Advances (Happening.process_event status) s = process_event-Advances status s
  react-Advances (Happening.shared_changed e f tr) s = Advances-refl s.job

  -- and so whatever happens
  pub live-Advances : (hs : List (Happening I J)) (s : Sys I J) → Advances s.job (live p hs s).job
  unfolding live
  live-Advances [] s = Advances-refl s.job
  live-Advances (h ∷ hs) s =
      Advances-trans s.job (react p h s).job _ (react-Advances h s) (live-Advances hs (react p h s))
