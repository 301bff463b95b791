-- ===== src/Tests/Requests.antt =====
-- The theorems on requests at concrete inputs.
use relaunchd.Prelude.{
  ◌≡◌, refl, ap, ℕ, zero, suc, String, true, false, none, some, List, [], ◌∷◌, ◌⊎◌, arith,
  get_elem?, filter_by, string_eq,
}
use relaunchd.Prelude.Assoc.{lookup}
use relaunchd.Prelude.Int.{is_negative}
use relaunchd.Prelude.Exec.{ok, err, out_of_range}
use relaunchd.Json.{MessageLaws}
use relaunchd.StateFile.{Disk}
use relaunchd.Channel.{accept, disconnect, read_message, descriptor}
use relaunchd.Manager.{Manager, ManagerState, Daemon, try_catch}
use relaunchd.Rpc.Server.{rpc_dispatch, serve}
use relaunchd.Rpc.Client.Requests.{Files, label_request, load_request, read_options}
use relaunchd.Rpc.Options.{is_path, mentions, resolve}
use relaunchd.Rpc.Reply.{is_uncaught, rpc_dispatch-returns}
use relaunchd.Rpc.Served.{failed, rpc_dispatch-start_stop}
use relaunchd.Rpc.Loading.{load_all, serve-load_request}
use relaunchd.Tests.Values.{
  json_laws, flag, has, Value, json, text, items, object, entry, nil, of_values, of_fields, values,
  nth, find,
}
use relaunchd.Manifest.{new_label, has_slash}
use relaunchd.StateFile.Overrides.{override_of, entry_of, with_override, edit}
use relaunchd.Rpc.Overridden.{rpc_dispatch-override_of}
use relaunchd.Tests.Systems.{document, listening, text_of}
use relaunchd.Tests.Managers.{daemon, with_web}

nth-of_values :
    (vs : List Value) (i : ℕ)
    → nth (of_values vs) i ≡ elim (get_elem? vs i) [ none ↦ err out_of_range | some v ↦ ok v ]
unfolding nth of_values
nth-of_values [] i = refl
nth-of_values (v ∷ vs) zero = refl
nth-of_values (v ∷ vs) (suc i) = nth-of_values vs i

find-of_fields :
    (fs : List (String × Value)) (k : String)
    → find k (of_fields fs) ≡ elim (lookup k fs) [ none ↦ err out_of_range | some v ↦ ok v ]
unfolding find of_fields lookup
find-of_fields [] k = refl
find-of_fields ((j, v) ∷ fs) k = ground (arith, find-of_fields fs k)

values-of_values : (vs : List Value) → values (of_values vs) ≡ vs
unfolding values of_values
values-of_values [] = refl
values-of_values (v ∷ vs) = ap (λ us. v ∷ us) (values-of_values vs)

pub message_laws : MessageLaws json
message_laws = record {
  at_index-of_array = nth-of_values;
  at-of_object = find-of_fields;
  elements-of_array = values-of_values;
  get_string-of_string = λ s. refl;
  get_bool-of_bool = λ b. refl;
}

abbrev pub manager : Manager Unit Value
manager = record (with_web ManagerState.running false) { chan = listening }

rpc_dispatch-returns_example :
    let (r, t) = rpc_dispatch daemon manager in
    ((r ≡ ok 0) × (is_negative t.chan.peerfd ≡ true)) ⊎ (is_uncaught r ≡ true)
rpc_dispatch-returns_example = rpc_dispatch-returns daemon manager refl

abbrev label_object : Value
label_object = object (entry "Label" (text "com.example.web") nil)

abbrev pub request_of : String → Value → Value
request_of method kwargs = items (entry "" (text method) (entry "" kwargs nil))

abbrev stopping : Daemon Unit Value
stopping = record daemon { text = text_of (request_of "stop" label_object) }

rpc_dispatch-start_stop_example : rpc_dispatch stopping manager ≡ (
  ok 0,
  record manager {
    chan =
        (disconnect stopping.net
          (read_message stopping.net stopping.text (accept stopping.net listening).1).1).1;
  },
)
unfolding label_request of_fields of_values read_message accept descriptor
rpc_dispatch-start_stop_example =
    rpc_dispatch-start_stop stopping message_laws false "com.example.web" []
      (request_of "stop" label_object) manager refl refl refl

abbrev pub files : Files
files = record { exists = λ path. true; canonical = ok }

abbrev load_object : Value
load_object = json.of_object (
    ("OverrideDisabled", json.of_bool true)
    ∷ ("Force", json.of_bool false)
    ∷ ("Paths", json.of_array (text "a.json" ∷ text "b.json" ∷ []))
    ∷ [])

serve-load_request_example :
    (paths : List String) × (resolve files (filter_by is_path ("a.json" ∷ "-w" ∷ "b.json" ∷ []))
      ≡ ok paths)
    × (serve daemon (request_of "load" load_object) manager
        ≡ try_catch
            (load_all daemon (record {
              override_disabled = mentions "-w" ("a.json" ∷ "-w" ∷ "b.json" ∷ []);
              force = mentions "-F" ("a.json" ∷ "-w" ∷ "b.json" ∷ []);
              paths = paths;
            }))
            (failed daemon)
            manager)
unfolding load_request read_options of_fields of_values
serve-load_request_example =
    serve-load_request daemon message_laws files ("a.json" ∷ "-w" ∷ "b.json" ∷ [])
      (request_of "load" load_object) manager refl

-- the client disables a job, next to one that is disabled already
abbrev disabled : Value
disabled = object (entry "Enabled" (flag false) nil)

abbrev edited : Value
edited = object (
    entry "Overrides"
      (object (entry "com.example.web" disabled (entry "com.example.off" disabled nil)))
      (entry "Overrides" (object (entry "com.example.off" disabled nil)) nil))

abbrev disabling : Daemon Unit Value
disabling = record daemon { text = text_of (request_of "disable" label_object) }

is_label : new_label "com.example.web" ≡ ok (record { value = "com.example.web" })
unfolding new_label has_slash
is_label = refl

edited-document : with_override json "com.example.web" false document ≡ ok edited
unfolding with_override edit find has of_fields
edited-document = refl

rpc_dispatch-override_of_example :
    let f = (rpc_dispatch disabling manager).1.state_file in
    (override_of json "com.example.off" f.current_value ≡ ok (some false))
    × (f.on_disk ≡ Disk.written f.current_value)
unfolding label_request of_fields of_values read_message accept descriptor override_of entry_of find
    has
rpc_dispatch-override_of_example =
    rpc_dispatch-override_of disabling json_laws message_laws false "com.example.web"
      "com.example.off" [] (request_of "disable" label_object) edited manager refl is_label
      edited-document refl refl refl refl
