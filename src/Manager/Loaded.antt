-- ===== src/Manager/Loaded.antt =====
-- Manager::loadManifest of src/manager.cc: which manifests become pending jobs.
use relaunchd.Prelude.{
  String, Bool, true, false, not, ◌||◌, ◌≡◌, ◌≢◌, refl, Option, some, arith, string_eq,
}
use relaunchd.Prelude.Assoc.{contains, insert}
use relaunchd.Prelude.Exec.{Result, ok, err}
use relaunchd.Manifest.{Manifest, from_json}
use relaunchd.StateFile.Overrides.{override_of}
use relaunchd.Job.{new_job}
use relaunchd.Manager.{Manager, Daemon, job_exists}
use relaunchd.Manager.Load.{
  override_enabled, switched_off, load_new, load_read, load_manifest, is_shutting_down,
}

-- the state file does not disable the job, or loading is forced
abbrev pub allows : Bool → Result (Option Bool) → Bool
allows force (ok o) = force || not (switched_off o)
allows force (err x) = false

-- what loading changes in the manager, if it does: the pending jobs
pub record Loads {I J : Type 0} (d : Daemon I J) (path : String) (force : Bool) (m : Manifest)
    (s t : Manager I J) : Type 0 where
  pub pending : t.pending_jobs ≡ insert m.label.value (some (new_job (some path) m)) s.pending_jobs
  pub jobs : t.jobs ≡ s.jobs
  pub allowed : (force || not m.disabled) ≡ true
  pub enabled :
      allows force (override_of d.platform.json m.label.value t.state_file.current_value) ≡ true

module _ {I J : Type 0} (d : Daemon I J) where
  override_enabled-jobs :
      (label : String) (b : Bool) (s : Manager I J)
      → ((override_enabled d label b s).1.pending_jobs ≡ s.pending_jobs)
        × ((override_enabled d label b s).1.jobs ≡ s.jobs)
  unfolding override_enabled
  override_enabled-jobs label b s = ground arith

  load_new-Loads :
      (path : String) (m : Manifest) (override force : Bool) (s : Manager I J)
      → (load_new d path m override force s).0 ≡ ok true
      → Loads d path force m s (load_new d path m override force s).1
  unfolding load_new
  load_new-Loads path m true force s h = ground (arith, override_enabled-jobs m.label.value true s)
  load_new-Loads path m false force s h = ground arith

  load_read-Loads :
      (path : String) (m : Manifest) (override force : Bool) (s : Manager I J)
      → (load_read d path m override force s).0 ≡ ok true
      → (job_exists m.label.value s ≡ false)
        × (contains m.label.value s.pending_jobs ≡ false)
        × Loads d path force m s (load_read d path m override force s).1
  unfolding load_read
  load_read-Loads path m override force s h = ground (arith, load_new-Loads path m override force s)

  -- `load_manifest` by what `from_json` says
  load_manifest-read :
      (r : Result Manifest) (json : J) (path : String) (override force : Bool) (s : Manager I J)
      → from_json d.platform.json json ≡ r
      → (load_manifest d json path override force s).0 ≡ ok true
      → (is_shutting_down s.state ≡ false)
        × ((m : Manifest) × (r ≡ ok m)
            × (load_manifest d json path override force s ≡ load_read d path m override force s))
  unfolding load_manifest
  load_manifest-read (err x) json path override force s e h = absurd (ground arith)
  load_manifest-read (ok m) json path override force s e h = (ground arith, (m, refl, ground arith))

  -- A manifest is loaded only if the manager is not shutting down, `from_json` accepts it, no job and no pending job has its label,
  -- and it is not disabled, by its own key or in the state file, or else loading is forced. Then
  -- a new job with this manifest is pending under its label, and the jobs are what they were.
  pub load_manifest-Loads :
      (json : J) (path : String) (override force : Bool) (s : Manager I J)
      → (load_manifest d json path override force s).0 ≡ ok true
      → (is_shutting_down s.state ≡ false)
        × ((m : Manifest) × (from_json d.platform.json json ≡ ok m)
            × (job_exists m.label.value s ≡ false)
            × (contains m.label.value s.pending_jobs ≡ false)
            × Loads d path force m s (load_manifest d json path override force s).1)
  load_manifest-Loads json path override force s h =
      let (up, (m, e, q)) = load_manifest-read _ json path override force s refl h in
      let loaded : (load_read d path m override force s).0 ≡ ok true = cc (q, h) in
      let (new, fresh, loads) = load_read-Loads path m override force s loaded in
      (up, (m, e, new, fresh, rw q loads))

  load_new-keeps :
      (path : String) (m : Manifest) (override force : Bool) (s : Manager I J)
      → (load_new d path m override force s).0 ≢ ok true
      → let t = (load_new d path m override force s).1 in
        (t.pending_jobs ≡ s.pending_jobs) × (t.jobs ≡ s.jobs)
  unfolding load_new
  load_new-keeps path m true force s h = ground (arith, override_enabled-jobs m.label.value true s)
  load_new-keeps path m false force s h = ground arith

  load_manifest_kept :
      (r : Result Manifest) (json : J) (path : String) (override force : Bool) (s : Manager I J)
      → from_json d.platform.json json ≡ r
      → (load_manifest d json path override force s).0 ≢ ok true
      → let t = (load_manifest d json path override force s).1 in
        (t.pending_jobs ≡ s.pending_jobs) × (t.jobs ≡ s.jobs)
  unfolding load_manifest load_read
  load_manifest_kept (err x) json path override force s e h = ground arith
  load_manifest_kept (ok m) json path override force s e h =
      ground (arith, load_new-keeps path m override force s)

  -- A manifest that is not loaded, because `loadManifest` returns false or throws, changes neither
  -- the jobs nor the pending jobs.
  pub load_manifest-keeps :
      (json : J) (path : String) (override force : Bool) (s : Manager I J)
      → (load_manifest d json path override force s).0 ≢ ok true
      → let t = (load_manifest d json path override force s).1 in
        (t.pending_jobs ≡ s.pending_jobs) × (t.jobs ≡ s.jobs)
  load_manifest-keeps json path override force s h =
      load_manifest_kept (from_json d.platform.json json) json path override force s refl h
