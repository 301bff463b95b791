-- ===== src/StateFile/Saved.antt =====
-- src/state_file.cc: the document in memory and the one on disk.
use relaunchd.Prelude.{String, Bool, true, false, Option, none, some, ◌≡◌, refl}
use mathlib.Core.Path.{subst}
use relaunchd.Prelude.Exec.{Result, ok, err, ok_injective}
use relaunchd.Json.{JsonLib}
use relaunchd.StateFile.{StateFile, FileSystem, Disk, write_out, new_state_file, set_value}
use relaunchd.StateFile.Overrides.{override_job_enabled, with_override}

-- `v` is on the disk, unless a write failed
abbrev Holds : {J : Type 0} → Disk J → J → Type 0
Holds (Disk.written w) v = w ≡ v
Holds (Disk.torn file) v = Unit

-- what is on the disk is in memory, unless the last write failed
abbrev pub IsSaved : {J : Type 0} → StateFile J → Type 0
IsSaved f = Holds f.on_disk f.current_value

module _ {J : Type 0} where
  write_out-Holds : (failure : Option (FileSystem J)) (v : J) → Holds (write_out failure v) v
  write_out-Holds none v = refl
  write_out-Holds (some file) v = tt

  returned_value :
      (g f : StateFile J) → ◌≡◌ {A = Result (StateFile J)} (ok g) (ok f) → IsSaved g → IsSaved f
  returned_value g f h saved = subst IsSaved (ok_injective h) saved

  opened_file :
      (r : Result J) (failure : Option (FileSystem J)) (path : String) (default : J)
      (f : StateFile J)
      → new_state_file (record { exists = true; parse = r }) failure path default ≡ ok f
      → IsSaved f
  unfolding new_state_file
  opened_file (ok v) failure path default f h = returned_value _ f h refl
  opened_file (err x) failure path default f h = cc

  file_at :
      (exists : Bool) (r : Result J) (failure : Option (FileSystem J)) (path : String) (default : J)
      (f : StateFile J)
      → new_state_file (record { exists = exists; parse = r }) failure path default ≡ ok f
      → IsSaved f
  unfolding new_state_file
  file_at true r failure path default f h = opened_file r failure path default f h
  file_at false r failure path default f h = returned_value _ f h (write_out-Holds failure default)

  pub new_state_file-IsSaved :
      (fs : FileSystem J) (failure : Option (FileSystem J)) (path : String) (default : J)
      (f : StateFile J)
      → new_state_file fs failure path default ≡ ok f
      → IsSaved f
  new_state_file-IsSaved fs failure path default f h =
      file_at fs.exists fs.parse failure path default f h

  edited_result :
      (lib : JsonLib J) (r : Result J) (failure : Option (FileSystem J)) (renamed : Bool)
      (label : String) (enabled : Bool) (f : StateFile J)
      → with_override lib label enabled f.current_value ≡ r
      → IsSaved f
      → IsSaved (override_job_enabled lib failure renamed label enabled f).1
  unfolding override_job_enabled set_value
  edited_result lib (err x) failure renamed label enabled f e h = rw (override_job_enabled, e) h
  edited_result lib (ok doc) failure true label enabled f e h =
      rw (override_job_enabled, e) (write_out-Holds failure doc)
  edited_result lib (ok doc) failure false label enabled f e h = rw (override_job_enabled, e) h

  pub override_job_enabled-IsSaved :
      (lib : JsonLib J) (failure : Option (FileSystem J)) (renamed : Bool) (label : String)
      (enabled : Bool) (f : StateFile J)
      → IsSaved f
      → IsSaved (override_job_enabled lib failure renamed label enabled f).1
  override_job_enabled-IsSaved lib failure renamed label enabled f h =
      edited_result lib _ failure renamed label enabled f refl h
