-- ===== src/Tests/Submitting.antt =====
-- The theorems on the submit and unload requests at concrete arguments.
use relaunchd.Prelude.{
  ◌≡◌, refl, String, none, some, List, [], ◌∷◌, map, arith, filter_by, true, false, string_eq,
}
use relaunchd.Prelude.Assoc.{lookup, is_some}
use relaunchd.Prelude.Exec.{ok}
use relaunchd.Json.{DocumentLaws}
use relaunchd.Manifest.{Manifest, new_label, has_slash, default_manifest}
use relaunchd.Manager.{try_catch, job_exists}
use relaunchd.Manager.Load.{add_pending}
use relaunchd.Rpc.Server.{serve}
use relaunchd.Rpc.Served.{failed}
use relaunchd.Rpc.Client.Requests.{
  Submission, read_submission, submit_request, unload_request, read_options,
}
use relaunchd.Rpc.Submitted.{start_submitted, serve-submit_request}
use relaunchd.StateFile.Overrides.{override_of, entry_of}
use relaunchd.Tests.Values.{Value, json, has, find, of_fields, of_values, strings, text}
use relaunchd.Tests.Requests.{message_laws, manager, files, request_of}
use relaunchd.Rpc.Unloading.{unload_all, serve-unload_request}
use relaunchd.Rpc.Options.{mentions, is_path, resolve}
use relaunchd.Tests.Managers.{daemon}

has-of_fields :
    (fs : List (String × Value)) (k : String) → has k (of_fields fs) ≡ is_some (lookup k fs)
unfolding has of_fields lookup
has-of_fields [] k = refl
has-of_fields ((j, v) ∷ fs) k = ground (arith, has-of_fields fs k)

strings-of_values : (ss : List String) → strings (of_values (map text ss)) ≡ ok ss
unfolding strings of_values
strings-of_values [] = refl
strings-of_values (s ∷ ss) = rw (strings-of_values ss) refl

instance document_laws : DocumentLaws json
document_laws = record {
  messages = message_laws;
  contains-of_object = has-of_fields;
  get_strings-of_array = strings-of_values;
}

abbrev submit_args : List String
submit_args = "-l" ∷ "com.example.job" ∷ "-o" ∷ "/tmp/out" ∷ "--" ∷ "/bin/echo" ∷ "hello" ∷ []

abbrev echo : Submission
echo = record {
  program = none;
  label = some "com.example.job";
  standard_out_path = some "/tmp/out";
  standard_error_path = none;
  program_arguments = "/bin/echo" ∷ "hello" ∷ [];
}

abbrev echo_manifest : Manifest
echo_manifest = record default_manifest {
  label = record { value = "com.example.job" };
  program = some "/bin/echo";
  program_arguments = "/bin/echo" ∷ "hello" ∷ [];
  stdout_path = "/tmp/out";
}

serve-submit_request_example :
    (msg : Value) × (submit_request json submit_args ≡ ok msg)
    × (serve daemon msg manager
        ≡ try_catch
            (start_submitted daemon)
            (failed daemon)
            (add_pending daemon "/dev/null" echo_manifest manager))
unfolding read_submission new_label has_slash override_of entry_of find job_exists has
serve-submit_request_example =
    serve-submit_request daemon submit_args echo "com.example.job" echo_manifest none manager refl
      refl refl refl refl refl refl refl refl

abbrev unload_args : List String
unload_args = "a.json" ∷ "-F" ∷ "b.json" ∷ []

abbrev unload_object : Value
unload_object = json.of_object (
    ("OverrideDisabled", json.of_bool false)
    ∷ ("Force", json.of_bool true)
    ∷ ("Paths", json.of_array (text "a.json" ∷ text "b.json" ∷ []))
    ∷ [])

serve-unload_request_example :
    (paths : List String) × (resolve files (filter_by is_path unload_args) ≡ ok paths)
    × (serve daemon (request_of "unload" unload_object) manager
        ≡ try_catch
            (unload_all daemon (record {
              override_disabled = mentions "-w" unload_args;
              force = mentions "-F" unload_args;
              paths = paths;
            }))
            (failed daemon)
            manager)
unfolding unload_request read_options of_fields of_values
serve-unload_request_example =
    serve-unload_request daemon message_laws files unload_args (request_of "unload" unload_object)
      manager refl
