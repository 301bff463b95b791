-- ===== src/StateFile/Location.antt =====
-- Manager::createOrOpenStatefile of src/manager.cc: where the state file of a domain is, and what a
-- new one holds.
use relaunchd.Prelude.{Bool, Option, not, ◌&&◌, [], ◌∷◌, ◌==◌, nat_eq, if◌then◌else◌}
use relaunchd.Prelude.Exec.{Result, ok}
use relaunchd.Prelude.Int.{pos}
use relaunchd.Prelude.Throw.{◌>>◌}
use relaunchd.Domain.{Domain, Environment, join_path}
use relaunchd.Json.{JsonLib}
use relaunchd.StateFile.{StateFile, FileSystem, new_state_file}

-- the state directory: whether it is there, and what `create_directories` does
pub record Directory : Type 0 where
  pub exists : Bool
  pub create_directories : Result (Unit {0})

module _ {J : Type 0} (json : JsonLib J) where
  abbrev pub default_state_doc : J
  default_state_doc =
      json.of_object
        (("SchemaVersion", json.of_int (pos 1)) ∷ ("Overrides", json.of_object []) ∷ [])

  -- Manager::createOrOpenStatefile
  unfoldable pub create_or_open_state_file :
      Environment → Directory → FileSystem J → Option (FileSystem J) → Domain → Result (StateFile J)
  unfolding new_state_file join_path
  create_or_open_state_file env dir fs failure domain =
      (if not (env.getuid == 0) && not dir.exists then dir.create_directories else ok tt)
      >> new_state_file fs failure (join_path domain.statedir "state.json") default_state_doc
