-- ===== src/Manager/Reopened.antt =====
-- The state file of src/state_file.cc between two runs of the daemon: what Manager::overrideJobEnabled
-- of src/manager.cc wrote is what the next Manager::createOrOpenStatefile reads.
use relaunchd.Prelude.{
  String, Bool, ◌≡◌, refl, ap, ◌∙◌, Option, none, some, ◌==◌, string_eq, if◌then◌else◌, arith,
}
use relaunchd.Prelude.Exec.{Result, ok, err}
use relaunchd.Json.{JsonLaws}
use relaunchd.StateFile.{StateFile, FileSystem, Disk, found_on, new_state_file, set_value}
use relaunchd.StateFile.Overrides.{
  with_override, override_of, override_job_enabled, override_of-with_override,
}
use relaunchd.Manager.{Manager, Daemon}
use relaunchd.Manager.Load.{override_enabled}

module _ {I J : Type 0} (d : Daemon I J) where
  open d use {platform}
  open platform use {json}

  -- the document of an override that was written, by what `with_override` says
  written_result :
      (r : Result J) (label : String) (enabled : Bool) (s : Manager I J)
      → with_override json label enabled s.state_file.current_value ≡ r
      → (override_enabled d label enabled s).0 ≡ ok tt
      → r ≡ ok (override_enabled d label enabled s).1.state_file.current_value
  unfolding override_enabled override_job_enabled set_value
  written_result (err x) label enabled s e h = absurd (ground arith)
  written_result (ok doc) label enabled s e h = ground arith

  written :
      (label : String) (enabled : Bool) (s : Manager I J)
      → (override_enabled d label enabled s).0 ≡ ok tt
      → with_override json label enabled s.state_file.current_value
        ≡ ok (override_enabled d label enabled s).1.state_file.current_value
  written label enabled s h = written_result _ label enabled s refl h

  -- where the write succeeds, it is what is on disk
  on_disk :
      (r : Result J) (label : String) (enabled : Bool) (s : Manager I J)
      → with_override json label enabled s.state_file.current_value ≡ r
      → (override_enabled d label enabled s).0 ≡ ok tt
      → platform.write_failure s.trace ≡ none
      → let f = (override_enabled d label enabled s).1.state_file in
        f.on_disk ≡ Disk.written f.current_value
  unfolding override_enabled override_job_enabled set_value
  on_disk (err x) label enabled s e h w = absurd (ground arith)
  on_disk (ok doc) label enabled s e h w = ground arith

  reopened :
      (disk : Disk J) (v : J) (failure : Option (FileSystem J)) (path : String) (default : J)
      (f : StateFile J)
      → disk ≡ Disk.written v
      → new_state_file (found_on disk) failure path default ≡ ok f
      → f.current_value ≡ v
  unfolding new_state_file found_on
  reopened (Disk.written w) v failure path default f e h = ground arith
  reopened (Disk.torn file) v failure path default f e h = cc

  -- If `overrideJobEnabled` returns and the new document was written, then a daemon that is started on
  -- the state file it leaves has this override for the label, and for every other label the override
  -- that the first daemon had.
  pub new_state_file-override_enabled :
      (laws : JsonLaws json) (s : Manager I J) (label other : String) (enabled : Bool)
      (failure : Option (FileSystem J)) (path : String) (default : J) (f : StateFile J)
      → (override_enabled d label enabled s).0 ≡ ok tt
      → platform.write_failure s.trace ≡ none
      → new_state_file
          (found_on (override_enabled d label enabled s).1.state_file.on_disk)
          failure
          path
          default
        ≡ ok f
      → override_of json other f.current_value ≡ (
          if label == other
          then ok (some enabled)
          else override_of json other s.state_file.current_value)
  new_state_file-override_enabled laws s label other enabled failure path default f h w opened =
      let t = (override_enabled d label enabled s).1 in
      ap (override_of json other) (
        reopened t.state_file.on_disk t.state_file.current_value failure path default f
          (on_disk _ label enabled s refl h w) opened)
      ∙ override_of-with_override json laws label other enabled s.state_file.current_value
          t.state_file.current_value (written label enabled s h)
