-- ===== src/Job/Machine/Final.antt =====
-- src/job.cc: the unload request, which works once, also where it is refused.
use relaunchd.Prelude.{Bool, true, false, ◌≡◌, refl, List, arith, inl, inr, ◌⊎◌}
use relaunchd.Prelude.Exec.{ok}
use relaunchd.Job.{Job, Sys, Platform, States, Triggers, is_disabled}
use relaunchd.Job.Machine.{fire, unload_job, Happening, live}
use relaunchd.Job.Machine.Step.{is_disabled_result}
use relaunchd.Job.Machine.Advances.{Advances, fire-Advances, live-Advances}

-- a state in which every request to unload is refused
abbrev pub Refuses : Job → Type 0
Refuses j = (j.state ≡ States.unloaded) ⊎ (j.unload_requested ≡ true)

module _ {I J : Type 0} (p : Platform I J) where
  is_disabled-request :
      (s : Sys I J)
      → is_disabled p s ≡ (ok true, s)
      → let s' = record s { job = record s.job { unload_requested = true } } in
        is_disabled p s' ≡ (ok true, s')
  unfolding is_disabled
  is_disabled-request s h = ground arith

  pub unload_job-Refuses :
      (force : Bool) (s : Sys I J) → Refuses s.job → unload_job p force s ≡ (ok false, s)
  unfolding unload_job
  unload_job-Refuses force s (inl e) = rw e refl
  unload_job-Refuses force s (inr e) = simp e (ground arith)

  unload_job_off :
      (s : Sys I J)
      → is_disabled p s ≡ (ok true, s)
      → ((unload_job p false s).0 ≡ ok false) × Refuses (unload_job p false s).1.job
  unfolding unload_job
  unload_job_off s h = ground (arith, is_disabled-request s h)

  pub unload_job-request : (force : Bool) (s : Sys I J) → Refuses (unload_job p force s).1.job
  unfolding unload_job
  unload_job-request force s =
      let s' : Sys I J = record s { job = record s.job { unload_requested = true } } in
      let (r, d) = is_disabled_result p s' in
      let h1 = fire-Advances p Triggers.stop_requested s' in
      let h2 = fire-Advances p Triggers.unload_requested (fire p Triggers.stop_requested s').1 in
      ground (arith, d, h1.requested, h2.requested)

  Refuses-Advances : (a b : Job) → Advances a b → Refuses a → Refuses b
  Refuses-Advances a b h (inl e) = inl (h.final e)
  Refuses-Advances a b h (inr e) = inr (h.requested e)

  -- Once `unloadJob` was called, whatever it answered and whatever happens to the job next (exits of
  -- the process, timers, triggers, other requests), every later call returns false and changes
  -- nothing.
  pub unload_job-once :
      (s : Sys I J) (force again : Bool) (hs : List (Happening I J))
      → let later = live p hs (unload_job p force s).1 in
        unload_job p again later ≡ (ok false, later)
  unload_job-once s force again hs =
      let t = (unload_job p force s).1 in
      unload_job-Refuses again _ (
        Refuses-Advances t.job (live p hs t).job (live-Advances p hs t)
          (unload_job-request force s))

  -- Once in state Unloaded, a job stays there, with its manifest, whatever happens next.
  pub live-final :
      (hs : List (Happening I J)) (s : Sys I J)
      → s.job.state ≡ States.unloaded
      → let j = (live p hs s).job in (j.state ≡ States.unloaded) × (j.manifest ≡ s.job.manifest)
  live-final hs s h = let a = live-Advances p hs s in (a.final h, a.manifest)

  -- An unload request without force is refused while the job is disabled, and that is final:
  -- `unloadJob` returns false, and after anything that may happen to the job next, every later
  -- request, forced or not, returns false and changes nothing.
  pub unload_job-refused :
      (s : Sys I J) (hs : List (Happening I J)) (force : Bool)
      → is_disabled p s ≡ (ok true, s)
      → let (first, t) = unload_job p false s in
        let later = live p hs t in
        (first ≡ ok false) × (unload_job p force later ≡ (ok false, later))
  unload_job-refused s hs force h =
      let (first, refuses) = unload_job_off s h in (first, unload_job-once s false force hs)
