-- ===== src/Manager/Consistent/Starting.antt =====
-- src/manager.cc: making jobs of the pending jobs keeps the jobs of the manager consistent.
use relaunchd.Prelude.{
  String, Bool, true, false, Option, none, some, List, [], ◌∷◌, arith, string_eq,
}
use relaunchd.Prelude.Assoc.{lookup, insert, assign, lookup-insert, lookup-assign}
use relaunchd.Prelude.Assoc.Entries.{Entries, Entries-insert, Entries-assign}
use relaunchd.Prelude.Exec.{
  Exec, ok, err, throw, assertion_failed, pure, gets, modify, ◌>>◌, out_of_range,
}
use relaunchd.Prelude.Exec.Preserves.{Preserves, preserves_rules, Preserves->>=, Preserves-read}
use relaunchd.Job.{Job, Triggers}
use relaunchd.Job.Machine.{fire}
use relaunchd.Manager.{
  Manager, Daemon, job_exists, start_pending, start_each, start_all_jobs, on_job,
}
use relaunchd.Job.Kept.{bootstrap-Keeps}
use relaunchd.Manager.Consistent.{Consistent, IsConsistent, IsSound, IsSound?, with_job-Preserves}

moved-Consistent :
    (label : String) (job : Job) (jobs : List (String × Job)) (pending : List (String × Option Job))
    → IsSound label job
    → Consistent jobs pending
    → Consistent (insert label job jobs) (assign label none pending)
moved-Consistent label job jobs pending sound c = record {
  sound = Entries-insert IsSound label job jobs sound c.sound;
  pending_sound = Entries-assign IsSound? label none pending tt c.pending_sound;
  apart = λ other j h. ground (
    arith,
    h,
    c.apart other j,
    lookup-assign label other none pending,
    lookup-insert label other job jobs,
    string_eq.equals_iff label other,
  );
}

module _ {I J : Type 0} (d : Daemon I J) where
  boot-Preserves :
      (label : String) → Preserves IsConsistent (on_job label (fire d.platform Triggers.bootstrap))
  boot-Preserves label =
      with_job-Preserves out_of_range label (fire d.platform Triggers.bootstrap)
        (bootstrap-Keeps d.platform)

  -- `assert(!known)`
  asserted :
      (known : Bool) (m : Exec (Manager I J) Unit)
      → Preserves IsConsistent m
      → Preserves IsConsistent (elim known [ true ↦ throw assertion_failed | false ↦ m ])
  asserted true m p = Preserves-read (λ _. err assertion_failed)
  asserted false m p = p

  -- the first statement of the loop
  abbrev move : String → Job → Exec (Manager I J) Unit
  move label job = modify (λ s. record s {
    pending_jobs = assign label none s.pending_jobs;
    jobs = insert label job s.jobs;
  })

  move-Preserves :
      (label : String) (job : Job) → IsSound label job → Preserves IsConsistent (move label job)
  move-Preserves label job sound = record {
    holds = λ s c. (moved-Consistent label job s.jobs s.pending_jobs sound c.0, c.1);
  }

  start_pending-Preserves :
      (label : String) (entry : Option Job)
      → IsSound? label entry
      → Preserves IsConsistent (start_pending d label entry)
  unfolding start_pending
  start_pending-Preserves label none sound = search preserves_rules
  start_pending-Preserves label (some job) sound =
      Preserves->>= (move label job)
        (λ _. on_job label (fire d.platform Triggers.bootstrap) >> pure tt)
        (move-Preserves label job sound) (λ _. search (preserves_rules, boot-Preserves))

  start_each-Preserves :
      (entries : List (String × Option Job))
      → Entries IsSound? entries
      → Preserves IsConsistent (start_each d entries)
  unfolding start_each
  start_each-Preserves [] sound = search preserves_rules
  start_each-Preserves ((label, entry) ∷ rest) sound =
      let start =
        Preserves->>= (start_pending d label entry) (λ _. start_each d rest)
          (start_pending-Preserves label entry sound.0) (λ _. start_each-Preserves rest sound.1) in
      Preserves->>= (gets (job_exists label)) _ (Preserves-read (λ s. ok (job_exists label s)))
        (λ known. asserted known (start_pending d label entry >> start_each d rest) start)

  none_pending-Preserves :
      Preserves IsConsistent (modify (λ (s : Manager I J). record s { pending_jobs = [] }))
  unfolding lookup
  none_pending-Preserves = record {
    holds = λ s c. (record { sound = c.0.sound; pending_sound = tt; apart = λ label j h. cc }, c.1);
  }

  pub start_all_jobs-Preserves : Preserves IsConsistent (start_all_jobs d)
  unfolding start_all_jobs
  start_all_jobs-Preserves = record {
    holds = λ s c.
        (Preserves->>= (start_each d s.pending_jobs) _
            (start_each-Preserves s.pending_jobs c.0.pending_sound)
            (λ _. none_pending-Preserves)).holds
          s c;
  }
