-- ===== src/Rpc/Client/Requests.antt =====
-- src/rpc_client.cc: the requests that the subcommands make of their arguments.
use relaunchd.Prelude.{
  ℕ, String, Bool, true, false, ◌||◌, Option, none, some, List, [], ◌∷◌, ◌++◌, map, ◌==◌, string_eq,
  get_elem?, if◌then◌else◌,
}
use relaunchd.Prelude.Exec.{Result, ok, err, out_of_range, undefined_behaviour, runtime_error}
use relaunchd.Prelude.Throw.{◌>>=◌}
use relaunchd.Json.{JsonLib}

pub record Files : Type 0 where
  pub exists : String → Bool
  -- `std::filesystem::canonical`
  pub canonical : String → Result String

-- `kwargs` of load and unload
pub record Loading : Type 0 where
  pub override_disabled : Bool
  pub force : Bool
  pub paths : List String

-- `kwargs` of submit
pub record Submission : Type 0 where
  pub program : Option String
  pub label : Option String
  pub standard_out_path : Option String
  pub standard_error_path : Option String
  pub program_arguments : List String

-- `args.at(i)`
abbrev arg_at : List String → ℕ → Result String
arg_at args i = elim (get_elem? args i) [ none ↦ err out_of_range | some arg ↦ ok arg ]

abbrev pub no_options : Loading
no_options = record { override_disabled = false; force = false; paths = [] }

-- what an argument of load and unload sets, if it is an option
abbrev pub option_of : String → Loading → Option Loading
option_of elem k =
    if elem == "-w"
    then some (record k { override_disabled = true })
    else if elem == "-F"
    then some (record k { force = true })
    else none

-- the loop over the arguments of load and unload
unfoldable pub read_options : Files → List String → Loading → Result Loading
read_options files [] k = ok k
read_options files (elem ∷ args) k = elim (option_of elem k) [
  | some k' ↦ read_options files args k'
  | none ↦ elim (files.exists elem) [
    | true ↦ files.canonical elem >>= λ path.
        read_options files args (record k { paths = k.paths ++ (path ∷ []) })
    | false ↦ err runtime_error
  ]
]

abbrev pub nothing : Submission
nothing = record {
  program = none;
  label = none;
  standard_out_path = none;
  standard_error_path = none;
  program_arguments = [];
}

-- the options of submit that take the argument after them
abbrev takes_value : String → Bool
takes_value opt = opt == "-p" || opt == "-l" || opt == "-o" || opt == "-e"

abbrev put_value : String → String → Submission → Submission
put_value opt value k =
    if opt == "-p"
    then record k { program = some value }
    else if opt == "-l"
    then record k { label = some value }
    else if opt == "-o"
    then record k { standard_out_path = some value }
    else record k { standard_error_path = some value }

-- The loop over the arguments of submit. An option at the end makes it read past them, which is
-- undefined behaviour.
unfoldable pub read_submission : List String → Submission → Result Submission
read_submission [] k = ok k
read_submission (opt ∷ []) k = if takes_value opt then err undefined_behaviour else ok k
read_submission (opt ∷ value ∷ args) k =
    if takes_value opt
    then read_submission args (put_value opt value k)
    else if opt == "--"
    then ok (record k { program_arguments = value ∷ args })
    else read_submission (value ∷ args) k

module _ {J : Type 0} (json : JsonLib J) where
  open json use {of_string, of_bool, of_array, of_object}

  abbrev pub message : String → J → J
  message method kwargs = of_array (of_string method ∷ kwargs ∷ [])

  -- the requests of list and version
  abbrev pub plain_request : String → J
  plain_request method = of_array (of_string method ∷ [])

  -- the requests of disable, enable, remove, start and stop
  unfoldable pub label_request : String → List String → Result J
  label_request method args =
      arg_at args 0 >>= λ label. ok (message method (of_object (("Label", of_string label) ∷ [])))

  -- the request of kill
  unfoldable pub kill_request : List String → Result J
  kill_request args = do
    signal ← arg_at args 0
    label ← arg_at args 1
    ok (message "kill" (of_object (("Signal", of_string signal) ∷ ("Label", of_string label) ∷ [])))

  -- the arguments of load and unload
  abbrev pub loading : Loading → J
  loading k = of_object (
      ("OverrideDisabled", of_bool k.override_disabled)
      ∷ ("Force", of_bool k.force)
      ∷ ("Paths", of_array (map of_string k.paths))
      ∷ [])

  -- the request of load
  unfoldable pub load_request : Files → List String → Result J
  unfolding read_options
  load_request files args =
      read_options files args no_options >>= λ k. ok (message "load" (loading k))

  -- the request of unload
  unfoldable pub unload_request : Files → List String → Result J
  unfolding read_options
  unload_request files args =
      read_options files args no_options >>= λ k. ok (message "unload" (loading k))

  abbrev entry_of : String → Option String → List (String × J)
  entry_of key none = []
  entry_of key (some value) = (key, of_string value) ∷ []

  -- the arguments of submit
  abbrev pub submission : String → Submission → J
  submission label k = of_object (
      (("ProgramArguments", of_array (map of_string k.program_arguments))
        ∷ ("Label", of_string label)
        ∷ [])
      ++ (entry_of "Program" k.program
          ++ (entry_of "StandardOutPath" k.standard_out_path
              ++ entry_of "StandardErrorPath" k.standard_error_path)))

  -- the request of submit
  unfoldable pub submit_request : List String → Result J
  unfolding read_submission
  submit_request args = read_submission args nothing >>= λ k. elim k.label [
    | none ↦ err runtime_error
    | some label ↦ ok (message "submit" (submission label k))
  ]
