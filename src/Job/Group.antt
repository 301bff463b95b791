-- ===== src/Job/Group.antt =====
-- Job::killProcessGroup of src/job.cc: the loop ends when `waitpid` has nothing more to report.
use relaunchd.Prelude.{ℕ, zero, suc, ◌<◌, ◌≡◌, false, none, some, arith, ◌∷◌}
use relaunchd.Prelude.Int.{ℤ, negate, is_negative}
use relaunchd.Prelude.Exec.{ok}
use relaunchd.Os.{Os, Call, Trace, Errno}
use relaunchd.Job.{Sys, Platform}
use relaunchd.Job.Process.{sigkill, gives_up, all_reaped, kill_loop, kill_process_group}

-- the trace after `n` rounds
unfoldable pub rounds : ℕ → ℤ → Trace → Trace
rounds zero pgid t = t
rounds (suc n) pgid t = rounds n pgid (Call.waitpid (negate pgid) ∷ Call.killpg pgid sigkill ∷ t)

-- The process group has `n` children to reap from trace `t` on: `killpg` does not give up, `waitpid`
-- reaps one child in each of `n` rounds, and fails with `e` in the next.
unfoldable pub Drains : Os → ℤ → ℕ → Errno → Trace → Type 0
Drains os pgid zero e t =
    (gives_up (os.killpg_answer t pgid sigkill) ≡ false)
    × (os.waitpid_fails (Call.killpg pgid sigkill ∷ t) (negate pgid) ≡ some e)
Drains os pgid (suc n) e t =
    (gives_up (os.killpg_answer t pgid sigkill) ≡ false)
    × (os.waitpid_fails (Call.killpg pgid sigkill ∷ t) (negate pgid) ≡ none)
    × Drains os pgid n e (Call.waitpid (negate pgid) ∷ Call.killpg pgid sigkill ∷ t)

module _ {I J : Type 0} (p : Platform I J) where
  kill_loop-Drains :
      (fuel n : ℕ) (pgid : ℤ) (e : Errno) (s : Sys I J)
      → n < fuel
      → Drains p.os pgid n e s.trace
      → kill_loop p fuel pgid s
        ≡ (ok (all_reaped e), record s { trace = rounds (suc n) pgid s.trace })
  unfolding kill_loop rounds Drains
  kill_loop-Drains zero n pgid e s l d = absurd (omega arith)
  kill_loop-Drains (suc fuel) zero pgid e s l (g, w) = ground (arith, g, w)
  kill_loop-Drains (suc fuel) (suc n) pgid e s l (g, w, d) =
      let next : Sys I J = record s {
        trace = Call.waitpid (negate pgid) ∷ Call.killpg pgid sigkill ∷ s.trace;
      } in
      ground (arith, g, w, kill_loop-Drains fuel n pgid e next (omega arith) d)

  -- Where the job has a process group and does not abandon it, and the group has fewer children to
  -- reap than the bound: `killProcessGroup` returns, after one round for each child and one more,
  -- with true just if `waitpid` said in the end that there is no child left (ECHILD). It changes
  -- nothing in the job.
  pub kill_process_group-Drains :
      (n : ℕ) (e : Errno) (s : Sys I J)
      → is_negative s.job.pgid ≡ false
      → s.job.manifest.abandon_process_group ≡ false
      → n < p.os.group_bound
      → Drains p.os s.job.pgid n e s.trace
      → kill_process_group p s
        ≡ (ok (all_reaped e), record s { trace = rounds (suc n) s.job.pgid s.trace })
  unfolding kill_process_group
  kill_process_group-Drains n e s g a l d =
      simp (g, a) (kill_loop-Drains p.os.group_bound n s.job.pgid e s l d)
