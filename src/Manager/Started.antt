-- ===== src/Manager/Started.antt =====
-- Manager::startAllJobs of src/manager.cc: the pending jobs become jobs.
use mathlib.Core.Path.{subst}
use relaunchd.Prelude.{
  String, true, ◌≡◌, refl, Option, none, some, List, [], ◌∷◌, All, arith, Option-cases, sym, inl,
  inr, string_eq,
}
use relaunchd.Prelude.Assoc.{lookup, assign, insert, contains, lookup-assign, lookup-insert}
use relaunchd.Prelude.Exec.{Exec, ok}
use relaunchd.Job.{Job, Sys, Triggers}
use relaunchd.Job.Machine.{fire}
use relaunchd.Manager.{
  Manager, Daemon, job_exists, with_job, on_job, view, start_pending, start_each, start_all_jobs,
}

module _ {I J : Type 0} (d : Daemon I J) where
  on_job-missing :
      {A : Type 0} (label : String) (m : Exec (Sys I J) A) (s : Manager I J)
      → lookup label s.jobs ≡ none
      → (on_job label m s).1 ≡ s
  unfolding with_job
  on_job-missing label m s e = ground (arith, e)

  on_job-there :
      {A : Type 0} (label other : String) (job : Job) (m : Exec (Sys I J) A) (s : Manager I J)
      → lookup label s.jobs ≡ some job
      → contains other (on_job label m s).1.jobs ≡ contains other s.jobs
  unfolding with_job
  on_job-there label other job m s e = ground (
    arith,
    e,
    lookup-assign label other (m (view job s)).1.job s.jobs,
    string_eq.equals_iff label other,
  )

  on_job-job_exists :
      {A : Type 0} (label other : String) (m : Exec (Sys I J) A) (s : Manager I J)
      → contains other (on_job label m s).1.jobs ≡ contains other s.jobs
  on_job-job_exists label other m s = elim (Option-cases (lookup label s.jobs)) [
    | inl e ↦ rw (on_job-missing label m s e) refl
    | inr (job, e) ↦ on_job-there label other job m s e
  ]

  start_pending-job_exists :
      (label other : String) (job : Job) (s : Manager I J)
      → contains other (start_pending d label (some job) s).1.jobs
        ≡ contains other (insert label job s.jobs)
  unfolding start_pending
  start_pending-job_exists label other job s =
      let moved : Manager I J = record s {
        pending_jobs = assign label none s.pending_jobs;
        jobs = insert label job s.jobs;
      } in
      ground (arith, on_job-job_exists label other (fire d.platform Triggers.bootstrap) moved)

  -- a job that is there stays there
  start_pending-keeps :
      (label other : String) (entry : Option Job) (s : Manager I J)
      → contains other s.jobs ≡ true
      → contains other (start_pending d label entry s).1.jobs ≡ true
  start_pending-keeps label other none s h = unfold start_pending in h
  start_pending-keeps label other (some job) s h =
      rw (start_pending-job_exists label other job s)
        (ground (arith, h, lookup-insert label other job s.jobs))

  -- whether or not the start of the job throws
  pub start_pending-there :
      (label : String) (job : Job) (s : Manager I J)
      → contains label (start_pending d label (some job) s).1.jobs ≡ true
  start_pending-there label job s =
      rw (start_pending-job_exists label label job s)
        (ground (arith, lookup-insert label label job s.jobs, string_eq.equals_iff label label))

  start_pending-adds :
      (label : String) (entry : Option Job) (s : Manager I J)
      → (start_pending d label entry s).0 ≡ ok tt
      → contains label (start_pending d label entry s).1.jobs ≡ true
  start_pending-adds label none s h = unfold start_pending in cc
  start_pending-adds label (some job) s h = start_pending-there label job s

  pub start_each-keeps :
      (entries : List (String × Option Job)) (other : String) (s : Manager I J)
      → contains other s.jobs ≡ true
      → contains other (start_each d entries s).1.jobs ≡ true
  unfolding start_each job_exists
  start_each-keeps [] other s h = h
  start_each-keeps ((label, entry) ∷ rest) other s h =
      let t = (start_pending d label entry s).1 in
      let k = start_pending-keeps label other entry s h in
      ground (arith, h, k, start_each-keeps rest other t k)

  -- a start that returned is that of the first entry and then that of the rest
  start_each-cons :
      (label : String) (entry : Option Job) (rest : List (String × Option Job)) (s : Manager I J)
      → (start_each d ((label, entry) ∷ rest) s).0 ≡ ok tt
      → let t = (start_pending d label entry s).1 in
        ((start_pending d label entry s).0 ≡ ok tt)
        × ((start_each d rest t).0 ≡ ok tt)
        × ((start_each d ((label, entry) ∷ rest) s).1 ≡ (start_each d rest t).1)
  unfolding start_each job_exists
  start_each-cons label entry rest s h = ground (arith, h)

  abbrev AllThere : List (String × Option Job) → Manager I J → Type 0
  AllThere entries s = All (λ entry. contains entry.0 s.jobs ≡ true) entries

  start_each-adds :
      (entries : List (String × Option Job)) (s : Manager I J)
      → (start_each d entries s).0 ≡ ok tt
      → AllThere entries (start_each d entries s).1
  start_each-adds [] s h = tt
  start_each-adds ((label, entry) ∷ rest) s h =
      let t = (start_pending d label entry s).1 in
      let (a, b, c) = start_each-cons label entry rest s h in
      subst (AllThere ((label, entry) ∷ rest)) (sym c) (
        start_each-keeps rest label t (start_pending-adds label entry s a),
        start_each-adds rest t b,
      )

  start_all_jobs-inv :
      (s : Manager I J)
      → (start_all_jobs d s).0 ≡ ok tt
      → let t = (start_each d s.pending_jobs s).1 in
        ((start_each d s.pending_jobs s).0 ≡ ok tt)
        × ((start_all_jobs d s).1 ≡ record t { pending_jobs = [] })
  unfolding start_all_jobs
  start_all_jobs-inv s h = ground (arith, h)

  -- If `startAllJobs` returns, no job is pending any more, and each label that was pending names a
  -- job.
  pub start_all_jobs-adds :
      (s : Manager I J)
      → (start_all_jobs d s).0 ≡ ok tt
      → let t = (start_all_jobs d s).1 in
        (t.pending_jobs ≡ []) × All (λ entry. contains entry.0 t.jobs ≡ true) s.pending_jobs
  start_all_jobs-adds s h =
      let (a, b) = start_all_jobs-inv s h in
      subst (λ (t : Manager I J). (t.pending_jobs ≡ []) × AllThere s.pending_jobs t) (sym b)
        (refl, start_each-adds s.pending_jobs s a)
