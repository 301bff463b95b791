-- ===== src/Manager/Load.antt =====
-- src/manager.cc: how manifests become pending jobs.
use relaunchd.Prelude.{
  String, Bool, true, false, not, ◌&&◌, ◌||◌, Option, none, some, List, [], ◌∷◌, string_eq,
  if◌then◌else◌,
}
use relaunchd.Prelude.Assoc.{lookup, contains, insert}
use relaunchd.Prelude.Exec.{
  Exec, ok, err, pure, throw, lift, gets, modify, ◌>>=◌, ◌>>◌, is_exception, assertion_failed,
}
use relaunchd.Manifest.{Manifest, from_json, label_text}
use relaunchd.Manifest.Parse.{parse}
use relaunchd.Domain.{get_load_paths}
use relaunchd.StateFile.Overrides.{override_of, override_job_enabled}
use relaunchd.Os.{Call}
use relaunchd.Job.{new_job}
use relaunchd.Manager.{Manager, ManagerState, Daemon, Found, job_exists, try_catch}

abbrev pub is_shutting_down : ManagerState → Bool
is_shutting_down ManagerState.graceful_shutdown = true
is_shutting_down _ = false

abbrev pub is_unconfigured : ManagerState → Bool
is_unconfigured ManagerState.unconfigured = true
is_unconfigured _ = false

-- an override with `Enabled` false
abbrev pub switched_off : Option Bool → Bool
switched_off none = false
switched_off (some enabled) = not enabled

module _ {I J : Type 0} (d : Daemon I J) where
  open d use {platform}

  -- Manager::overrideJobEnabled
  unfoldable pub override_enabled : String → Bool → Exec (Manager I J) Unit
  override_enabled label enabled s =
      let (r, f) =
        override_job_enabled platform.json (platform.write_failure s.trace)
          (platform.os.rename_succeeds s.trace) label enabled s.state_file in
      (r, record s { state_file = f; trace = Call.rename ∷ s.trace })

  -- the job becomes pending
  abbrev pub add_pending : String → Manifest → Manager I J → Manager I J
  add_pending path m s = record s {
    pending_jobs = insert m.label.value (some (new_job (some path) m)) s.pending_jobs;
  }

  -- loadManifest once the label is known to be new
  unfoldable pub load_new : String → Manifest → Bool → Bool → Exec (Manager I J) Bool
  unfolding insert
  load_new path m override_disabled force_load = do
    if override_disabled then override_enabled m.label.value true else pure tt
    if m.disabled && not force_load then pure false else (do
      doc ← gets (λ s. s.state_file.current_value)
      off ← lift (override_of platform.json m.label.value doc)
      if switched_off off && not force_load
          then pure false
          else (do modify (add_pending path m); pure true))

  -- loadManifest once the manifest is read
  unfoldable pub load_read : String → Manifest → Bool → Bool → Exec (Manager I J) Bool
  unfolding load_new lookup job_exists
  load_read path m override_disabled force_load = do
    label ← lift (label_text m.label)
    known ← gets (λ s. job_exists label s || contains label s.pending_jobs)
    if known then pure false else load_new path m override_disabled force_load

  -- Manager::loadManifest(json, path, overrideDisabled, forceLoad)
  unfoldable pub load_manifest : J → String → Bool → Bool → Exec (Manager I J) Bool
  load_manifest jsondata path override_disabled force_load s =
      if is_shutting_down s.state then (ok false, s) else (elim (from_json platform.json jsondata) [
        | err x ↦ if is_exception x then (ok false, s) else (err x, s)
        | ok m ↦ load_read path m override_disabled force_load s
      ])

  -- Manager::loadManifest(path, overrideDisabled, forceLoad)
  unfoldable pub load_manifest_file : String → Bool → Bool → Exec (Manager I J) Bool
  unfolding parse
  load_manifest_file path override_disabled force_load =
      lift (parse platform.json d.reader path) >>= λ obj.
      load_manifest obj path override_disabled force_load

  -- one file in loadAllManifests: true if it was not loaded
  unfoldable pub load_one : Bool → Bool → String → Exec (Manager I J) Bool
  load_one override_disabled force_load path =
      try_catch
        (load_manifest_file path override_disabled force_load >>= λ loaded. pure (not loaded))
        (pure true)

  unfoldable pub load_each : Bool → Bool → List String → Bool → Exec (Manager I J) Bool
  unfolding load_one
  load_each override_disabled force_load [] error = pure error
  load_each override_disabled force_load (path ∷ paths) error =
      load_one override_disabled force_load path >>= λ failed.
      load_each override_disabled force_load paths (error || failed)

  -- Manager::loadAllManifests: true if there was an error, but false if nothing is at the path
  unfoldable pub load_all_manifests : String → Bool → Bool → Exec (Manager I J) Bool
  unfolding load_each
  load_all_manifests path override_disabled force_load s =
      if is_shutting_down s.state then (ok false, s) else (elim (d.find path) [
        | Found.absent ↦ (ok false, s)
        | Found.file ↦ load_each override_disabled force_load (path ∷ []) false s
        | Found.directory files ↦ load_each override_disabled force_load files false s
      ])

  unfoldable pub load_paths_of : List String → Exec (Manager I J) Unit
  load_paths_of [] = pure tt
  load_paths_of (path ∷ paths) = load_all_manifests path false false >> load_paths_of paths

  -- Manager::loadDefaultManifests
  unfoldable pub load_default_manifests : Exec (Manager I J) Unit
  unfolding get_load_paths
  load_default_manifests = do
    start ← gets (λ s. is_unconfigured s.state)
    if start then load_paths_of (get_load_paths d.config d.domain.dtype) else throw assertion_failed
