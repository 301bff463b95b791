-- ===== src/Program/Launchd/Finished.antt =====
-- What holds when the daemon of src/launchd.cc returns 0.
use relaunchd.Prelude.{
  ◌≡◌, ◌≢◌, string_eq, refl, ◌∙◌, ap, ℕ, String, Bool, true, false, List, [], ◌∷◌, arith,
}
use relaunchd.Prelude.Exec.{Exec, ok, outcome, returned, threw}
use relaunchd.Prelude.Int.{ℤ, is_negative}
use relaunchd.Manager.{
  Manager, ManagerState, ManagerResult, ManagerTrigger, Daemon, with_job, on_job,
}
use relaunchd.Job.{Job, Sys}
use relaunchd.Job.Machine.{force_unload_job}
use relaunchd.Channel.{unbind_and_stop_listening}
use relaunchd.Manager.Unload.{force_unload_all_jobs, force_each}
use relaunchd.Manager.Machine.{destroy, fire}
use relaunchd.Manager.Loop.{run_main_loop}
use relaunchd.Manager.Shutdown.{force_unload_all_jobs-state}
use relaunchd.Manager.Stopped.{unbind_lem, main_loop-finished}
use relaunchd.Program.Launchd.{
  HostCall, Ending, Progress, Process, Step, run_boot_script, detach, become_a_subreaper,
  in_manager, launchd_main, ◌>>=◌, stop, resume, double_fork, fork_once, redirect_stdio,
  null_descriptor, read_flags, no_flags,
}

-- the process ends with `return 0`
abbrev pub ReturnsZero : {A : Type 0} → Progress A → Type 0
ReturnsZero r = r ≡ Progress.ended (Ending.returned 0)

-- a step that ends the process in other ways only
abbrev Continues : {S A : Type 0} → Step S A → Type 0
Continues {S} m = (p : S) → (m p).0 ≢ Progress.ended (Ending.returned 0)

-- what is left of the manager
pub record Done {I J : Type 0} (p : Process I J) : Type 0 where
  pub manager : Manager I J
  pub is_left : p.manager ≡ ok manager
  pub finished : manager.state ≡ ManagerState.finished
  pub no_jobs : manager.jobs ≡ []
  pub not_listening : is_negative manager.chan.sockfd ≡ true

ended_injective :
    {A : Type 0} {e e' : Ending}
    → ◌≡◌ {A = Progress A} (Progress.ended e) (Progress.ended e')
    → e ≡ e'
ended_injective h = cc

-- A step that does not return 0 was followed by the rest if 0 was returned.
followed :
    {I J A B : Type 0} (r : Progress A) (f : A → Step (Process I J) B) (q : Process I J)
    → r ≢ Progress.ended (Ending.returned 0)
    → ((a : A) → r ≡ Progress.going a → ReturnsZero (f a q).0 → Done (f a q).1)
    → ReturnsZero (resume r f q).0
    → Done (resume r f q).1
followed (Progress.going a) f q n k h = k a refl h
followed (Progress.ended e) f q n k h = absurd (n (ap Progress.ended (ended_injective h)))

module _ {I J : Type 0} (d : Daemon I J) where
  with_job-chan :
      {A : Type 0} (label : String) (m : Exec (Sys I J) A) (s : Manager I J)
      → (on_job label m s).1.chan ≡ s.chan
  unfolding with_job
  with_job-chan label m s = ground arith

  force_each-chan :
      (entries : List (String × Job)) (s : Manager I J) → (force_each d entries s).1.chan ≡ s.chan
  unfolding force_each
  force_each-chan [] s = refl
  force_each-chan ((label, j) ∷ rest) s =
      let e = with_job-chan label (force_unload_job d.platform) s in
      ground (arith, e, force_each-chan rest (on_job label (force_unload_job d.platform) s).1)

  force_unload_all_jobs-chan : (s : Manager I J) → (force_unload_all_jobs d s).1.chan ≡ s.chan
  unfolding force_unload_all_jobs
  force_unload_all_jobs-chan s = ground (arith, force_each-chan s.jobs s)

  destroyed :
      (s : Manager I J)
      → (destroy d s).0 ≡ ok tt
      → ((destroy d s).1.state ≡ s.state)
        × ((destroy d s).1.jobs ≡ [])
        × (is_negative (destroy d s).1.chan.sockfd ≡ true)
  unfolding destroy
  destroyed s h =
      let s' = record s { chan = (unbind_and_stop_listening d.net s.chan).1 } in
      ground (
        arith,
        h,
        unbind_lem d.net s.chan,
        force_unload_all_jobs-state d s',
        force_unload_all_jobs-chan s',
      )

module _ {I J : Type 0} (answer : List HostCall → HostCall → ℤ) (d : Daemon I J) where
  abbrev Ends : Step (Process I J) Unit → Process I J → Type 0
  Ends m p = ReturnsZero (m p).0 → Done (m p).1

  -- from the destructor of the manager on
  abbrev closing : Step (Process I J) Unit
  closing = in_manager (destroy d) >>= λ _. stop (Ending.returned 0)

  Ends-destroy :
      (s : Manager I J) (p : Process I J)
      → p.manager ≡ ok s
      → s.state ≡ ManagerState.finished
      → Ends closing p
  Ends-destroy s p e f h = elim (outcome (destroy d s).0) [
    | threw x r ↦ absurd (ground (arith, e, r, h))
    | returned done r ↦
        let (st, j, c) = destroyed d s r in
        record {
          manager = (destroy d s).1;
          is_left = ground (arith, e, r);
          finished = st ∙ f;
          no_jobs = j;
          not_listening = c;
        }
  ]

  run_boot_script-manager :
      (boot : Bool) (path : String) (p : Process I J)
      → (run_boot_script answer boot path p).1.manager ≡ p.manager
  unfolding run_boot_script
  run_boot_script-manager true path p = ground arith
  run_boot_script-manager false path p = refl

  run_boot_script-Continues :
      (boot : Bool) (path : String) → Continues {S = Process I J} (run_boot_script answer boot path)
  unfolding run_boot_script
  run_boot_script-Continues true path p h = absurd (ground (arith, h))
  run_boot_script-Continues false path p h = absurd (ground (arith, h))

  in_manager-Continues :
      {A : Type 0} (m : Exec (Manager I J) A) → Continues {S = Process I J} (in_manager m)
  in_manager-Continues m p h = absurd (ground (arith, h))

  become_a_subreaper-Continues : Continues {S = Process I J} (become_a_subreaper answer)
  unfolding become_a_subreaper
  become_a_subreaper-Continues p h = absurd (ground (arith, h))

  detach-Continues :
      (daemonize : Bool) (pid : ℕ) → Continues {S = Process I J} (detach answer daemonize pid)
  unfolding detach double_fork fork_once redirect_stdio null_descriptor
  detach-Continues false pid p h = absurd (ground (arith, h))
  detach-Continues true pid p h = absurd (ground (arith, h))

  -- from the script "bootout" on
  abbrev going_down : Bool → Step (Process I J) Unit
  going_down boot = run_boot_script answer boot "/lib/relaunchd/bootout" >>= λ _. closing

  Ends-going_down :
      (boot : Bool) (s : Manager I J) (p : Process I J)
      → p.manager ≡ ok s
      → s.state ≡ ManagerState.finished
      → Ends (going_down boot) p
  Ends-going_down boot s p e f =
      let path : String = "/lib/relaunchd/bootout" in
      let (r, q) = run_boot_script answer boot path p in
      followed r (λ _. closing) q (run_boot_script-Continues boot path p)
        (λ a g. Ends-destroy s q (run_boot_script-manager boot path p ∙ e) f)

  run_main_loop-finished :
      (fuel : ℕ) (s : Manager I J) (result : ManagerResult)
      → (run_main_loop d fuel s).0 ≡ ok result
      → (run_main_loop d fuel s).1.state ≡ ManagerState.finished
  unfolding run_main_loop
  run_main_loop-finished fuel s result h = ground (arith, h, main_loop-finished d fuel s result)

  -- from the main loop on
  abbrev looping : ℕ → Bool → Step (Process I J) Unit
  looping fuel boot = in_manager (run_main_loop d fuel) >>= λ _. going_down boot

  Ends-looping : (fuel : ℕ) (boot : Bool) (p : Process I J) → Ends (looping fuel boot) p
  Ends-looping fuel boot p h = elim (outcome p.manager) [
    | threw x e ↦ absurd (ground (arith, e, h))
    | returned s e ↦ elim (outcome (run_main_loop d fuel s).0) [
      | threw x r ↦ absurd (ground (arith, e, r, h))
      | returned result r ↦
          let (g, q) = in_manager (run_main_loop d fuel) p in
          followed g (λ _. going_down boot) q (in_manager-Continues (run_main_loop d fuel) p)
            (λ a _.
              Ends-going_down boot (run_main_loop d fuel s).1 q (ground (arith, e))
                (run_main_loop-finished fuel s result r))
            h
    ]
  ]

  -- from the construction of the manager on
  abbrev starting : ℕ → Bool → Step (Process I J) Unit
  starting fuel boot = in_manager (fire d ManagerTrigger.start_requested) >>= λ _. looping fuel boot

  Ends-starting : (fuel : ℕ) (boot : Bool) (p : Process I J) → Ends (starting fuel boot) p
  Ends-starting fuel boot p =
      let m = fire d ManagerTrigger.start_requested in
      followed (in_manager m p).0 (λ _. looping fuel boot) (in_manager m p).1
        (in_manager-Continues m p) (λ a g. Ends-looping fuel boot (in_manager m p).1)

  -- after the options, the script "bootstrap" and the detachment
  abbrev detached : ℕ → Bool → Step (Process I J) Unit
  detached fuel boot = become_a_subreaper answer >>= λ _. starting fuel boot

  Ends-detached : (fuel : ℕ) (boot : Bool) (p : Process I J) → Ends (detached fuel boot) p
  Ends-detached fuel boot p =
      let (r, q) = become_a_subreaper answer p in
      followed r (λ _. starting fuel boot) q (become_a_subreaper-Continues p)
        (λ a g. Ends-starting fuel boot q)

  -- If `launchd_main` returns 0, whatever the system answers and whatever the options are, then its
  -- manager is finished, has no jobs, and its socket is closed.
  pub launchd_main-Done :
      (fuel pid : ℕ) (flags : List ℕ) (p : Process I J)
      → ReturnsZero (launchd_main answer d fuel pid flags p).0
      → Done (launchd_main answer d fuel pid flags p).1
  unfolding launchd_main
  launchd_main-Done fuel pid flags p =
      let o = read_flags flags no_flags in
      let path : String = "/lib/relaunchd/bootstrap" in
      let (r, q) = run_boot_script answer o.boot_manager path p in
      let (r', q') = detach answer o.daemonize pid q in
      followed r (λ _. detach answer o.daemonize pid >>= λ _. detached fuel o.boot_manager) q
        (run_boot_script-Continues o.boot_manager path p)
        (λ a g.
          followed r' (λ _. detached fuel o.boot_manager) q' (detach-Continues o.daemonize pid q)
            (λ b k. Ends-detached fuel o.boot_manager q'))
