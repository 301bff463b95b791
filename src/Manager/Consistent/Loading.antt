-- ===== src/Manager/Consistent/Loading.antt =====
-- src/manager.cc: loading manifests keeps the jobs of the manager consistent.
use relaunchd.Prelude.{
  String, Bool, true, false, ◌≡◌, ◌≢◌, refl, Option, some, List, [], ◌∷◌, arith, string_eq,
  Bool-cases, inl, inr, ◌⊎◌,
}
use relaunchd.Prelude.Assoc.{contains, insert, lookup-insert}
use relaunchd.Prelude.Assoc.Entries.{Entries-insert}
use relaunchd.Prelude.Exec.{Result, ok, err}
use relaunchd.Prelude.Exec.Preserves.{Preserves, preserves_rules, Preserves-lift, Preserves->>=}
use relaunchd.Manifest.{Manifest, from_json}
use relaunchd.Manifest.Parse.{parse}
use relaunchd.Manifest.WellFormed.{IsWellFormed, from_json-IsWellFormed}
use relaunchd.Job.{Job, new_job}
use relaunchd.Manager.{Manager, Daemon, Found, job_exists}
use relaunchd.StateFile.Saved.{IsSaved, override_job_enabled-IsSaved}
use relaunchd.Manager.Load.{
  load_new, load_read, override_enabled, load_manifest, load_manifest_file, load_one, load_each,
  load_all_manifests, load_paths_of, load_default_manifests, is_shutting_down,
}
use relaunchd.Manager.Loaded.{Loads, load_manifest-Loads, load_manifest-keeps}
use relaunchd.Manager.Consistent.{Consistent, IsConsistent, IsSound, IsSound?, try_catch-Preserves}

new_job-IsSound :
    (path : Option String) (m : Manifest) → IsWellFormed m → IsSound m.label.value (new_job path m)
unfolding new_job
new_job-IsSound path m w = record { named = refl; runnable = w; timed = record { waits = λ h. cc } }

insert-Consistent :
    (job : Job) (label : String) (jobs : List (String × Job)) (pending : List (String × Option Job))
    → IsSound label job
    → contains label jobs ≡ false
    → Consistent jobs pending
    → Consistent jobs (insert label (some job) pending)
insert-Consistent job label jobs pending sound new c = record {
  sound = c.sound;
  pending_sound = Entries-insert IsSound? label (some job) pending sound c.pending_sound;
  apart = λ other j h. ground (
    arith,
    h,
    new,
    c.apart other j,
    lookup-insert label other (some job) pending,
    string_eq.equals_iff label other,
  );
}

returned_true : (r : Result Bool) → (r ≡ ok true) ⊎ (r ≢ ok true)
returned_true (ok true) = inl refl
returned_true (ok false) = inr (λ h. cc)
returned_true (err x) = inr (λ h. cc)

module _ {I J : Type 0} (d : Daemon I J) where
  pub override_enabled-Preserves :
      (label : String) (enabled : Bool) → Preserves IsConsistent (override_enabled d label enabled)
  unfolding override_enabled
  override_enabled-Preserves label enabled = record {
    holds = λ s c. (
      c.0,
      override_job_enabled-IsSaved d.platform.json (d.platform.write_failure s.trace)
          (d.platform.os.rename_succeeds s.trace) label enabled s.state_file c.1,
    );
  }

  load_new-IsSaved :
      (path : String) (m : Manifest) (override force : Bool) (s : Manager I J)
      → IsSaved s.state_file
      → IsSaved (load_new d path m override force s).1.state_file
  unfolding load_new override_enabled
  load_new-IsSaved path m override force s h = ground (
    arith,
    override_job_enabled-IsSaved d.platform.json (d.platform.write_failure s.trace)
        (d.platform.os.rename_succeeds s.trace) m.label.value true s.state_file h,
  )

  load_read-IsSaved :
      (path : String) (m : Manifest) (override force : Bool) (s : Manager I J)
      → IsSaved s.state_file
      → IsSaved (load_read d path m override force s).1.state_file
  unfolding load_read
  load_read-IsSaved path m override force s h =
      ground (arith, load_new-IsSaved path m override force s h)

  -- by what `from_json` says
  load_result-IsSaved :
      (r : Result Manifest) (json : J) (path : String) (override force : Bool) (s : Manager I J)
      → from_json d.platform.json json ≡ r
      → IsSaved s.state_file
      → IsSaved (load_manifest d json path override force s).1.state_file
  unfolding load_manifest
  load_result-IsSaved (err x) json path override force s e h = ground arith
  load_result-IsSaved (ok m) json path override force s e h =
      ground (arith, load_read-IsSaved path m override force s h)

  load_manifest-IsSaved :
      (json : J) (path : String) (override force : Bool) (s : Manager I J)
      → IsSaved s.state_file
      → IsSaved (load_manifest d json path override force s).1.state_file
  load_manifest-IsSaved json path override force s h =
      load_result-IsSaved _ json path override force s refl h

  loaded-Consistent :
      (path : String) (force : Bool) (m : Manifest) (s t : Manager I J)
      → IsWellFormed m
      → contains m.label.value s.jobs ≡ false
      → Loads d path force m s t
      → IsConsistent s
      → Consistent t.jobs t.pending_jobs
  loaded-Consistent path force m s t w new l c =
      let job = new_job (some path) m in
      rw (l.jobs, l.pending)
        (insert-Consistent job m.label.value s.jobs s.pending_jobs (new_job-IsSound (some path) m w)
          new c.0)

  pub load_manifest-Preserves :
      (json : J) (path : String) (override force : Bool)
      → Preserves IsConsistent (load_manifest d json path override force)
  unfolding job_exists
  load_manifest-Preserves json path override force = record {
    holds = λ s c. elim (returned_true (load_manifest d json path override force s).0) [
      | inr n ↦
          let (p, j) = load_manifest-keeps d json path override force s n in
          (rw (p, j) c.0, load_manifest-IsSaved json path override force s c.1)
      | inl y ↦
          let (_, (m, e, new, _, l)) = load_manifest-Loads d json path override force s y in
          (
            loaded-Consistent path force m s _ (from_json-IsWellFormed d.platform.json json m e) new
                l c,
            load_manifest-IsSaved json path override force s c.1,
          )
    ];
  }

  pub load_manifest_file-Preserves :
      (path : String) (override force : Bool)
      → Preserves IsConsistent (load_manifest_file d path override force)
  unfolding load_manifest_file
  load_manifest_file-Preserves path override force =
      Preserves-lift (parse d.platform.json d.reader path) _
        (λ obj _. load_manifest-Preserves obj path override force)

  load_one-Preserves :
      (override force : Bool) (path : String)
      → Preserves IsConsistent (load_one d override force path)
  unfolding load_one
  load_one-Preserves override force path =
      search (preserves_rules, try_catch-Preserves, load_manifest_file-Preserves)

  load_each-Preserves :
      (override force : Bool) (paths : List String) (error : Bool)
      → Preserves IsConsistent (load_each d override force paths error)
  unfolding load_each
  load_each-Preserves override force [] error = search preserves_rules
  load_each-Preserves override force (path ∷ paths) error =
      Preserves->>= (load_one d override force path) _ (load_one-Preserves override force path)
        (λ failed. load_each-Preserves override force paths _)

  -- the files that `load_all_manifests` reads
  abbrev files_at : Found → String → List String
  files_at Found.absent path = []
  files_at Found.file path = path ∷ []
  files_at (Found.directory files) path = files

  load_found :
      (found : Found) (path : String) (override force : Bool) (s : Manager I J)
      → d.find path ≡ found
      → is_shutting_down s.state ≡ false
      → (load_all_manifests d path override force s).1
        ≡ (load_each d override force (files_at found path) false s).1
  unfolding load_all_manifests load_each
  load_found Found.absent path override force s e r = ground (arith, e, r)
  load_found Found.file path override force s e r = ground (arith, e, r)
  load_found (Found.directory files) path override force s e r = ground (arith, e, r)

  load_all_refused :
      (path : String) (override force : Bool) (s : Manager I J)
      → is_shutting_down s.state ≡ true
      → (load_all_manifests d path override force s).1 ≡ s
  unfolding load_all_manifests
  load_all_refused path override force s r = rw r refl

  pub load_all_manifests-Preserves :
      (path : String) (override force : Bool)
      → Preserves IsConsistent (load_all_manifests d path override force)
  load_all_manifests-Preserves path override force = record {
    holds = λ s c. elim (Bool-cases (is_shutting_down s.state)) [
      | inl r ↦ rw (load_all_refused path override force s r) c
      | inr r ↦
          rw (load_found (d.find path) path override force s refl r)
            ((load_each-Preserves override force (files_at (d.find path) path) false).holds s c)
    ];
  }

  load_paths_of-Preserves : (paths : List String) → Preserves IsConsistent (load_paths_of d paths)
  unfolding load_paths_of
  load_paths_of-Preserves [] = search preserves_rules
  load_paths_of-Preserves (path ∷ paths) =
      Preserves->>= (load_all_manifests d path false false) _
        (load_all_manifests-Preserves path false false) (λ _. load_paths_of-Preserves paths)

  pub load_default_manifests-Preserves : Preserves IsConsistent (load_default_manifests d)
  unfolding load_default_manifests
  load_default_manifests-Preserves = search (preserves_rules, load_paths_of-Preserves)
