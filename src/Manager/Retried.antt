-- ===== src/Manager/Retried.antt =====
-- Manager::startAllJobs of src/manager.cc, called again after an exception left it.
use relaunchd.Prelude.{
  ◌≡◌, refl, ap, ◌∙◌, String, true, Option, none, some, List, [], ◌∷◌, map, arith, string_eq,
}
use relaunchd.Prelude.Assoc.{contains, assign, insert}
use relaunchd.Prelude.Exec.{Exec, Error, err, is_exception, assertion_failed}
use relaunchd.Job.{Job, Sys, Triggers}
use relaunchd.Job.Machine.{fire}
use relaunchd.Manager.{
  Manager, Daemon, job_exists, with_job, on_job, start_pending, start_each, start_all_jobs,
}
use relaunchd.Manager.Started.{start_each-keeps, start_pending-there}

-- the label of the first pending job
abbrev pub first_label : {V : Type 0} → List (String × V) → Option String
first_label [] = none
first_label ((label, v) ∷ m) = some label

abbrev pub labels : {V : Type 0} → List (String × V) → List String
labels m = map (λ entry. entry.0) m

first_label-labels :
    {V : Type 0} (m n : List (String × V)) → labels m ≡ labels n → first_label m ≡ first_label n
first_label-labels [] [] h = refl
first_label-labels [] ((k, w) ∷ n) h = cc
first_label-labels ((j, v) ∷ m) [] h = cc
first_label-labels ((j, v) ∷ m) ((k, w) ∷ n) h = ground (arith, h)

labels-assign :
    {V : Type 0} (k : String) (v : V) (m : List (String × V)) → labels (assign k v m) ≡ labels m
unfolding assign
labels-assign k v [] = refl
labels-assign k v ((j, w) ∷ m) = ground (arith, labels-assign k v m)

module _ {I J : Type 0} (d : Daemon I J) where
  on_job-pending :
      {A : Type 0} (label : String) (m : Exec (Sys I J) A) (s : Manager I J)
      → (on_job label m s).1.pending_jobs ≡ s.pending_jobs
  unfolding with_job
  on_job-pending label m s = ground arith

  start_pending-labels :
      (label : String) (entry : Option Job) (s : Manager I J)
      → labels (start_pending d label entry s).1.pending_jobs ≡ labels s.pending_jobs
  unfolding start_pending
  start_pending-labels label none s = refl
  start_pending-labels label (some job) s =
      let moved : Manager I J = record s {
        pending_jobs = assign label none s.pending_jobs;
        jobs = insert label job s.jobs;
      } in
      ground (
        arith,
        ap labels (on_job-pending label (fire d.platform Triggers.bootstrap) moved),
        labels-assign {V = Option Job} label none s.pending_jobs,
      )

  start_each-labels :
      (entries : List (String × Option Job)) (s : Manager I J)
      → labels (start_each d entries s).1.pending_jobs ≡ labels s.pending_jobs
  unfolding start_each job_exists
  start_each-labels [] s = refl
  start_each-labels ((label, entry) ∷ rest) s = ground (
    arith,
    start_pending-labels label entry s,
    start_each-labels rest (start_pending d label entry s).1,
  )

  -- a first entry that is there as a job stops the loop at once
  blocked :
      (label : String) (entries : List (String × Option Job)) (s : Manager I J)
      → first_label entries ≡ some label
      → contains label s.jobs ≡ true
      → start_each d entries s ≡ (err assertion_failed, s)
  unfolding start_each job_exists
  blocked label [] s h k = absurd (ground (arith, h))
  blocked label ((j, entry) ∷ rest) s h k =
      let same : j ≡ label = ground (arith, h) in
      let there : contains j s.jobs ≡ true = rw same k in ground (arith, there)

  -- a null pointer, or a job that is there, is no exception
  not_started :
      (label : String) (rest : List (String × Option Job)) (s : Manager I J) (x : Error)
      → (start_each d ((label, none) ∷ rest) s).0 ≡ err x
      → ¬ (is_exception x ≡ true)
  unfolding start_each start_pending job_exists
  not_started label rest s x h e = ground (arith, h, e)

  -- an exception that leaves the loop is one of a job that was started, and is there
  started_first :
      (label : String) (entry : Option Job) (rest : List (String × Option Job)) (s : Manager I J)
      (x : Error)
      → (start_each d ((label, entry) ∷ rest) s).0 ≡ err x
      → is_exception x ≡ true
      → contains label (start_each d ((label, entry) ∷ rest) s).1.jobs ≡ true
  unfolding start_each job_exists
  started_first label none rest s x h e = absurd (not_started label rest s x h e)
  started_first label (some job) rest s x h e =
      let t = (start_pending d label (some job) s).1 in
      let there = start_pending-there d label job s in
      ground (arith, h, e, there, start_each-keeps d rest label t there)

  left_first :
      (entries : List (String × Option Job)) (s : Manager I J) (x : Error)
      → (start_each d entries s).0 ≡ err x
      → is_exception x ≡ true
      → (label : String) × (first_label entries ≡ some label)
        × (contains label (start_each d entries s).1.jobs ≡ true)
  unfolding start_each
  left_first [] s x h e = absurd (ground (arith, h))
  left_first ((label, entry) ∷ rest) s x h e = (label, refl, started_first label entry rest s x h e)

  thrown :
      (s : Manager I J) (x : Error)
      → (start_all_jobs d s).0 ≡ err x
      → ((start_each d s.pending_jobs s).0 ≡ err x)
        × ((start_all_jobs d s).1 ≡ (start_each d s.pending_jobs s).1)
  unfolding start_all_jobs
  thrown s x h = ground (arith, h)

  again :
      (label : String) (t : Manager I J)
      → first_label t.pending_jobs ≡ some label
      → contains label t.jobs ≡ true
      → start_all_jobs d t ≡ (err assertion_failed, t)
  unfolding start_all_jobs
  again label t h k = ground (arith, blocked label t.pending_jobs t h k)

  -- If an exception leaves `startAllJobs`, as where a job cannot be started, the labels that were
  -- pending stay pending, and the first of them is a job. The next call fails in its assertion at once
  -- and changes nothing.
  pub start_all_jobs-again :
      (s : Manager I J) (x : Error)
      → (start_all_jobs d s).0 ≡ err x
      → is_exception x ≡ true
      → let t = (start_all_jobs d s).1 in
        (labels t.pending_jobs ≡ labels s.pending_jobs)
        × ((label : String) × (first_label t.pending_jobs ≡ some label)
            × (contains label t.jobs ≡ true))
        × (start_all_jobs d t ≡ (err assertion_failed, t))
  start_all_jobs-again s x h e =
      let (r, same) = thrown s x h in
      let (label, first, there) = left_first s.pending_jobs s x r e in
      let t = (start_each d s.pending_jobs s).1 in
      let pending = start_each-labels s.pending_jobs s in
      let first' = first_label-labels t.pending_jobs s.pending_jobs pending ∙ first in
      rw same (pending, (label, first', there), again label t first' there)
