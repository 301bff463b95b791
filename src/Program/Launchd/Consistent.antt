-- ===== src/Program/Launchd/Consistent.antt =====
-- The jobs of the daemon of src/launchd.cc, from its start to its end.
use relaunchd.Prelude.{◌∙◌, ◌≡◌, refl, sym, ℕ, String, Bool, true, false, List, nat_eq, arith}
use relaunchd.Prelude.Exec.{Exec, ok, outcome, returned, threw, ok_injective}
use relaunchd.Prelude.Exec.Preserves.{Preserves}
use relaunchd.Prelude.Int.{ℤ, int_eq}
use mathlib.Core.Path.{subst}
use relaunchd.Channel.{Channel}
use relaunchd.Event.{EventManager}
use relaunchd.StateFile.{StateFile}
use relaunchd.StateFile.Saved.{IsSaved}
use relaunchd.Manager.{Manager, ManagerTrigger, Daemon}
use relaunchd.Manager.Machine.{new_manager, fire, destroy}
use relaunchd.Manager.Loop.{run_main_loop}
use relaunchd.Manager.Consistent.{IsConsistent}
use relaunchd.Manager.Consistent.Running.{fire-Preserves, destroy-Preserves}
use relaunchd.Manager.Consistent.Looping.{run_main_loop-Preserves}
use relaunchd.Manager.Consistent.Reached.{new_manager-IsConsistent}
use relaunchd.Program.Launchd.{
  HostCall, Ending, Progress, going, ended, Process, Step, resume, ◌>>=◌, in_manager, stop,
  run_boot_script, detach, double_fork, fork_once, redirect_stdio, null_descriptor,
  become_a_subreaper, launchd_main,
}

-- the manager of the process, if its construction did not fail, is consistent
abbrev pub IsKept : {I J : Type 0} → Process I J → Type 0
IsKept {I} {J} p = (s : Manager I J) → p.manager ≡ ok s → IsConsistent s

record Keeps {I J A : Type 0} (m : Step (Process I J) A) : Type 0 where
  holds : (p : Process I J) → IsKept p → IsKept (m p).1

module _ {I J : Type 0} where
  -- a step that leaves the manager alone
  Keeps-outside :
      {A : Type 0} (m : Step (Process I J) A)
      → ((p : Process I J) → (m p).1.manager ≡ p.manager)
      → Keeps m
  Keeps-outside m same = record { holds = λ p k s e. k s (sym (same p) ∙ e) }

  resumed :
      {A B : Type 0} (r : Progress A) (f : A → Step (Process I J) B)
      → ((a : A) → Keeps (f a))
      → Keeps (resume r f)
  resumed (going a) f k = record { holds = (k a).holds }
  resumed (ended e) f k = Keeps-outside (resume (ended e) f) (λ p. refl)

  Keeps->>= :
      {A B : Type 0} (m : Step (Process I J) A) (f : A → Step (Process I J) B)
      → Keeps m
      → ((a : A) → Keeps (f a))
      → Keeps (m >>= f)
  Keeps->>= m f k l = record { holds = λ p h. (resumed (m p).0 f l).holds (m p).1 (k.holds p h) }

  in_manager-manager :
      {A : Type 0} (m : Exec (Manager I J) A) (p : Process I J) (s : Manager I J)
      → p.manager ≡ ok s
      → (in_manager m p).1.manager ≡ ok (m s).1
  in_manager-manager m p s e = ground (arith, e)

  in_manager-Keeps :
      {A : Type 0} (m : Exec (Manager I J) A) → Preserves IsConsistent m → Keeps (in_manager m)
  in_manager-Keeps m c = record {
    holds = λ p k t h. elim (outcome p.manager) [
      | threw x e ↦ absurd (ground (arith, e, h))
      | returned s e ↦
          subst IsConsistent (ok_injective (sym (in_manager-manager m p s e) ∙ h))
            (c.holds s (k s e))
    ];
  }

module _ {I J : Type 0} (answer : List HostCall → HostCall → ℤ) (d : Daemon I J) where
  boot-Keeps :
      (boot : Bool) (path : String) → Keeps {I = I} {J = J} (run_boot_script answer boot path)
  unfolding run_boot_script
  boot-Keeps true path = Keeps-outside _ (λ p. ground arith)
  boot-Keeps false path = Keeps-outside _ (λ p. refl)

  detach-Keeps : (daemonize : Bool) (pid : ℕ) → Keeps {I = I} {J = J} (detach answer daemonize pid)
  unfolding detach double_fork fork_once redirect_stdio null_descriptor
  detach-Keeps false pid = Keeps-outside _ (λ p. ground arith)
  detach-Keeps true pid = Keeps-outside _ (λ p. ground arith)

  subreaper-Keeps : Keeps {I = I} {J = J} (become_a_subreaper answer)
  unfolding become_a_subreaper
  subreaper-Keeps = Keeps-outside _ (λ p. refl)

  fire-Keeps : (t : ManagerTrigger) → Keeps (in_manager (fire d t))
  fire-Keeps t = in_manager-Keeps (fire d t) (fire-Preserves d t)

  loop-Keeps : (fuel : ℕ) → Keeps (in_manager (run_main_loop d fuel))
  loop-Keeps fuel = in_manager-Keeps (run_main_loop d fuel) (run_main_loop-Preserves d fuel)

  destroy-Keeps : Keeps (in_manager (destroy d))
  destroy-Keeps = in_manager-Keeps (destroy d) (destroy-Preserves d)

  return-Keeps : Keeps {I = I} {J = J} (stop {A = Unit {0}} (Ending.returned 0))
  return-Keeps = record { holds = λ p k. k }

  main-Keeps : (fuel pid : ℕ) (flags : List ℕ) → Keeps (launchd_main answer d fuel pid flags)
  unfolding launchd_main
  main-Keeps fuel pid flags =
      search
        (
          Keeps->>=, boot-Keeps, detach-Keeps, subreaper-Keeps, fire-Keeps, loop-Keeps,
          destroy-Keeps, return-Keeps,
        )
        depth 12

  -- If the program starts with a new manager whose state file is on disk what it is in memory, unless
  -- writing it failed, then wherever `launchd_main` ends or stands, after whatever number of events,
  -- whatever the system, the clients and the files answer: each job of its manager is kept under its
  -- own label, has a manifest that can be run and a timer only in state Waiting, no pending job has
  -- the label of a job, and unless the last write of the state file failed, what is on disk is what
  -- is in memory.
  pub launchd_main-IsKept :
      (fuel pid : ℕ) (flags : List ℕ) (p : Process I J) (e : EventManager I) (c : Channel)
      (f : StateFile J)
      → IsSaved f
      → p.manager ≡ ok (new_manager d e c f)
      → IsKept (launchd_main answer d fuel pid flags p).1
  launchd_main-IsKept fuel pid flags p e c f saved h = (main-Keeps fuel pid flags).holds p (λ s g.
      subst IsConsistent (ok_injective (sym h ∙ g)) (new_manager-IsConsistent d e c f saved))
