-- ===== src/Manifest.antt =====
-- src/manifest.h and src/manifest.cc: the description of a job and how it is read from JSON.
-- Assertions are on, as in the default build.
pub mod Parse
pub mod WellFormed
pub mod Refused
use relaunchd.Prelude.{
  ℕ, zero, ◌%◌, ◌^◌, String, ◌≡◌, refl, Bool, true, false, not, ◌&&◌, Option, none, some, List, [],
  ◌∷◌, is_empty, ◌==◌, nat_eq, string_eq, if◌then◌else◌,
}
use relaunchd.Prelude.Assoc.{is_some}
use relaunchd.Prelude.Exec.{
  Error, Result, ok, err, runtime_error, logic_error, not_supported, invalid_manifest,
  assertion_failed,
}
use relaunchd.Prelude.Text.{codes, stoul_octal}
use relaunchd.Prelude.Throw.{◌>>=◌, ◌>>◌, throw_if}
use relaunchd.Json.{JsonLib, Kind}

-- class Label: `Label()` holds the empty text
pub record Label : Type 0 where
  pub value : String

unfoldable pub has_slash : List ℕ → Bool
has_slash [] = false
has_slash (c ∷ cs) = if c == b'/' then true else has_slash cs

-- `Label(std::string)`
unfoldable pub new_label : String → Result Label
unfolding has_slash
new_label s =
    if s == ""
    then err runtime_error
    else if has_slash (codes s)
    then err runtime_error
    else ok (record { value = s })

-- `static_cast<std::string>(label)`, `label.c_str()`
abbrev pub label_text : Label → Result String
label_text l = if l.value == "" then err assertion_failed else ok l.value

pub record KeepAlive : Type 0 where
  pub always : Bool

pub record Manifest : Type 0 where
  pub label : Label
  pub user_name : Option String
  pub group_name : Option String
  pub program : Option String
  pub program_arguments : List String
  pub disabled : Bool
  pub run_at_load : Bool
  pub working_directory : Option String
  pub root_directory : Option String
  pub environment_variables : List (String × String)
  pub umask : Option ℕ  -- mode_t
  pub exit_timeout : ℕ  -- seconds
  pub start_interval : Option ℕ  -- uint32_t
  pub throttle_interval : ℕ  -- uint32_t
  pub nice : Option ℕ  -- uint32_t
  pub init_groups : Bool
  pub stdin_path : String
  pub stdout_path : String
  pub stderr_path : String
  pub abandon_process_group : Bool
  pub keep_alive : KeepAlive

abbrev pub default_exit_timeout : ℕ
default_exit_timeout = 20

-- the member initialisers
abbrev pub default_manifest : Manifest
default_manifest = record {
  label = record { value = "" };
  user_name = none;
  group_name = none;
  program = none;
  program_arguments = [];
  disabled = false;
  run_at_load = false;
  working_directory = none;
  root_directory = none;
  environment_variables = [];
  umask = none;
  exit_timeout = default_exit_timeout;
  start_interval = none;
  throttle_interval = 10;
  nice = none;
  init_groups = true;
  stdin_path = "/dev/null";
  stdout_path = "/dev/null";
  stderr_path = "/dev/null";
  abandon_process_group = false;
  keep_alive = record { always = false };
}

-- Manifest::rectify
unfoldable pub rectify : Manifest → Result Manifest
rectify m = go m.program m.program_arguments
  where
    go : Option String → List String → Result Manifest
    go none [] = err logic_error
    go none (a ∷ rest) = ok (record m { program = some a })
    go (some p) [] = ok (record m { program_arguments = p ∷ [] })
    go (some p) (a ∷ rest) = ok m

-- Manifest::validate
unfoldable pub validate : Manifest → Result Bool
validate m = do
  label ← label_text m.label
  if label == ""
      then ok false
      else if not (is_some m.program) && not (is_empty m.program_arguments)
      then ok false
      else if is_some m.group_name && not (is_some m.user_name)
      then ok false
      else ok true

-- the six keys that are refused
abbrev pub unsupported_keys : List String
unsupported_keys =
    "EnableGlobbing" ∷ "WatchPaths" ∷ "QueueDirectories" ∷ "StartOnMount" ∷ "StartCalendarInterval"
    ∷ "Sockets" ∷ []

module _ {J : Type 0} (lib : JsonLib J) (j : J) where
  open lib use {contains, at, kind, get_string, get_bool, get_uint32, get_strings, get_string_map}

  abbrev pub Step : Type 0
  Step = Manifest → Result Manifest

  -- `if (j.contains(key)) { j.at(key).get_to(x); m.field = x; }`
  unfoldable pub read : {A : Type 0} → String → (J → Result A) → (A → Manifest → Manifest) → Step
  read key get put m = if contains j key then (do v ← at j key; x ← get v; ok (put x m)) else ok m

  -- `if (j.contains(key)) { throw NotSupportedError(); }`
  unfoldable pub refuse : String → Step
  refuse key m = if contains j key then err not_supported else ok m

  -- `mode_t` is 32 bits wide
  unfoldable pub umask_value : J → Result ℕ
  umask_value v = elim (kind v) [
    | Kind.number_integer ↦ get_uint32 v
    | Kind.string ↦ (do s ← get_string v; n ← stoul_octal (codes s); ok (n % 2 ^ 32))
    | _ ↦ err runtime_error
  ]

  -- `none` where the value says nothing of `always`
  unfoldable pub keep_alive_value : J → Result (Option Bool)
  keep_alive_value v = elim (kind v) [
    | Kind.boolean ↦ (do b ← get_bool v; ok (some b))
    | Kind.object ↦
        if contains v "Always" then (do w ← at v "Always"; b ← get_bool w; ok (some b)) else ok none
    | _ ↦ ok none
  ]

  abbrev put_always : Option Bool → Manifest → Manifest
  put_always none m = m
  put_always (some b) m = record m { keep_alive = record { always = b } }

  abbrev label_value : J → Result Label
  label_value v = do s ← get_string v; new_label s

  -- the blocks of `from_json`, in order
  unfoldable pub steps : List Step
  unfolding read refuse umask_value keep_alive_value
  steps =
      read "Label" label_value (λ x m. record m { label = x })
      ∷ read "UserName" get_string (λ x m. record m { user_name = some x })
      ∷ read "GroupName" get_string (λ x m. record m { group_name = some x })
      ∷ read "Program" get_string (λ x m. record m { program = some x })
      ∷ read "ProgramArguments" get_strings (λ x m. record m { program_arguments = x })
      ∷ refuse "EnableGlobbing"
      ∷ read "RunAtLoad" get_bool (λ x m. record m { run_at_load = x })
      ∷ read "WorkingDirectory" get_string (λ x m. record m { working_directory = some x })
      ∷ read "RootDirectory" get_string (λ x m. record m { root_directory = some x })
      ∷ read "EnvironmentVariables" get_string_map (λ x m. record m { environment_variables = x })
      ∷ read "Umask" umask_value (λ x m. record m { umask = some x })
      ∷ read "Disabled" get_bool (λ x m. record m { disabled = x })
      ∷ read "ExitTimeout" get_uint32 (λ x m. record m { exit_timeout = x })
      ∷ read "StartInterval" get_uint32 (λ x m. record m { start_interval = some x })
      ∷ read "ThrottleInterval" get_uint32 (λ x m. record m { throttle_interval = x })
      ∷ read "Nice" get_uint32 (λ x m. record m { nice = some x })
      ∷ read "InitGroups" get_bool (λ x m. record m { init_groups = x })
      ∷ refuse "WatchPaths"
      ∷ refuse "QueueDirectories"
      ∷ refuse "StartOnMount"
      ∷ read "StandardInPath" get_string (λ x m. record m { stdin_path = x })
      ∷ read "StandardOutPath" get_string (λ x m. record m { stdout_path = x })
      ∷ read "StandardErrorPath" get_string (λ x m. record m { stderr_path = x })
      ∷ read "AbandonProcessGroup" get_bool (λ x m. record m { abandon_process_group = x })
      ∷ refuse "StartCalendarInterval"
      ∷ read "KeepAlive" keep_alive_value put_always
      ∷ refuse "Sockets"
      ∷ []

  unfoldable pub run_steps : List Step → Step
  run_steps [] m = ok m
  run_steps (f ∷ fs) m = do m' ← f m; run_steps fs m'

  -- the end of `from_json`
  unfoldable pub finish : Step
  unfolding rectify validate
  finish m = do m' ← rectify m; valid ← validate m'; throw_if (not valid) invalid_manifest; ok m'

  -- `manifest::from_json(j, m)` on a new `m`
  unfoldable pub from_json : Result Manifest
  unfolding steps run_steps finish
  from_json = do m ← run_steps steps default_manifest; finish m
