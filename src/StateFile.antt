-- ===== src/StateFile.antt =====
-- src/state_file.cc and src/state_file.hpp: a JSON document that is kept in memory and on disk.
-- The file system enters as the answers of `FileSystem`.
pub mod Overrides
pub mod Location
pub mod Saved
use relaunchd.Prelude.{
  String, ◌≡◌, Bool, true, false, Option, none, some, List, [], ◌∷◌, ◌==◌, string_eq, if◌then◌else◌,
}
use relaunchd.Prelude.Exec.{
  Exec, Result, ok, err, pure, throw, lift, gets, modify, ◌>>=◌, ◌>>◌, system_error,
}
use relaunchd.Json.{JsonLib}

-- What a reader finds: whether the file is there, and what `json::parse` makes of it.
pub record FileSystem (J : Type 0) : Type 0 where
  pub exists : Bool
  pub parse : Result J

-- The data file: the document that was written last, or what a write that failed left behind.
pub data Disk (J : Type 0) : Type 0 where
  written : J → Disk J
  torn : FileSystem J → Disk J

-- What a reader finds: `json::parse` gives back the document that `<<` wrote, as nlohmann::json
-- documents.
unfoldable pub found_on : {J : Type 0} → Disk J → FileSystem J
found_on (written v) = record { exists = true; parse = ok v }
found_on (torn file) = file

-- `std::ofstream ofs{path}; ofs << v; ofs.close();`, where nothing is checked: the answer of the system
-- is what is left if opening, writing or closing fails
abbrev pub write_out : {J : Type 0} → Option (FileSystem J) → J → Disk J
write_out none v = written v
write_out (some file) v = torn file

pub record StateFile (J : Type 0) : Type 0 where
  pub data_path : String
  pub default_value : J
  pub current_value : J
  pub on_disk : Disk J

module _ {J : Type 0} where
  -- StateFile::StateFile
  unfoldable pub new_state_file :
      FileSystem J → Option (FileSystem J) → String → J → Result (StateFile J)
  new_state_file fs failure path default =
      if fs.exists
      then (elim fs.parse [
        | ok v ↦ ok (record {
          data_path = path;
          default_value = default;
          current_value = v;
          on_disk = written v;
        })
        | err x ↦ err x
      ])
      else ok (record {
        data_path = path;
        default_value = default;
        current_value = default;
        on_disk = write_out failure default;
      })

  -- StateFile::setValue: the new document is written to another file, which then takes the place
  -- of the data file in one step, also where the write failed; `renamed` is the answer of `rename`
  unfoldable pub set_value : Option (FileSystem J) → Bool → J → Exec (StateFile J) Unit
  set_value failure renamed v s =
      if renamed
      then (ok tt, record s { current_value = v; on_disk = write_out failure v })
      else (err system_error, s)

  -- StateFile::clear
  unfoldable pub clear : Option (FileSystem J) → StateFile J → StateFile J
  clear failure s = record s {
    current_value = s.default_value;
    on_disk = write_out failure s.default_value;
  }
