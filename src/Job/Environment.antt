-- ===== src/Job/Environment.antt =====
-- Job::setup_environment_variables of src/job.cc. An entry `key=value` of the environment is the pair
-- of its parts.
use relaunchd.Prelude.{
  String, true, false, ◌≡◌, refl, ◌∙◌, Option, none, some, List, [], ◌∷◌, ◌++◌, arith, string_eq,
  ◌==◌, ltb, if◌then◌else◌,
}
use relaunchd.Prelude.Assoc.{lookup, contains}
use relaunchd.Os.{Passwd}

abbrev pub Variables : Type 0
Variables = List (String × String)

-- `if (!environment_variables.count(key)) { result.emplace_back(name + "=" + value); }`
unfoldable pub default_of : Variables → String → String → String → Variables
unfolding lookup
default_of variables key name value = if contains key variables then [] else (name, value) ∷ []

-- The variables of a session; without SHELL it is HOME that is added.
unfoldable pub session_variables : Variables → String → String → String → Variables
session_variables variables pw_name pw_dir pw_shell =
    default_of variables "LOGNAME" "LOGNAME" pw_name
    ++ (default_of variables "USER" "USER" pw_name
        ++ (default_of variables "HOME" "HOME" pw_dir
            ++ (default_of variables "PATH" "PATH" "/usr/bin:/bin:/usr/local/bin"
                ++ (default_of variables "SHELL" "HOME" pw_shell
                    ++ (default_of variables "TMPDIR" "TMPDIR" "/tmp"
                        ++ default_of variables "PWD" "PWD" "/")))))

-- Job::setup_environment_variables, where `uid` is the text of `getuid()`. The call of
-- add_standard_environment_variables fills a copy of the vector, which is dropped.
unfoldable pub setup_environment_variables : Variables → Option Passwd → String → Variables
setup_environment_variables variables none uid =
    variables ++ session_variables variables uid "/" "/bin/sh"
setup_environment_variables variables (some pwent) uid =
    if ltb 0 pwent.pw_uid
    then variables ++ session_variables variables pwent.pw_name pwent.pw_dir pwent.pw_shell
    else variables

lookup-append :
    (k : String) (xs ys : Variables)
    → lookup k (xs ++ ys) ≡ (if contains k xs then lookup k xs else lookup k ys)
unfolding lookup
lookup-append k [] ys = refl
lookup-append k ((j, v) ∷ xs) ys = ground (arith, lookup-append k xs ys)

-- What the manifest sets is what the process gets: the environment has the first value that
-- the manifest gives to a variable.
pub setup_environment_variables-kept :
    (variables : Variables) (pwent : Option Passwd) (uid key : String)
    → contains key variables ≡ true
    → lookup key (setup_environment_variables variables pwent uid) ≡ lookup key variables
unfolding setup_environment_variables
setup_environment_variables-kept variables none uid key h =
    rw (lookup-append key variables (session_variables variables uid "/" "/bin/sh"), h) refl
setup_environment_variables-kept variables (some pwent) uid key h = ground (
  arith,
  h,
  lookup-append key variables
      (session_variables variables pwent.pw_name pwent.pw_dir pwent.pw_shell),
)

default_of-other :
    (key : String) (variables : Variables) (k name value : String) (rest : Variables)
    → (name == key) ≡ false
    → lookup key (default_of variables k name value ++ rest) ≡ lookup key rest
unfolding default_of lookup
default_of-other key variables k name value rest h = ground arith

default_of-last :
    (key : String) (variables : Variables) (k name value : String)
    → (name == key) ≡ false
    → lookup key (default_of variables k name value) ≡ none
unfolding default_of lookup
default_of-last key variables k name value h = ground arith

session-shell :
    (variables : Variables) (pw_name pw_dir pw_shell : String)
    → lookup "SHELL" (session_variables variables pw_name pw_dir pw_shell) ≡ none
unfolding session_variables
session-shell variables pw_name pw_dir pw_shell =
    default_of-other "SHELL" variables "LOGNAME" "LOGNAME" pw_name _ refl
    ∙ default_of-other "SHELL" variables "USER" "USER" pw_name _ refl
    ∙ default_of-other "SHELL" variables "HOME" "HOME" pw_dir _ refl
    ∙ default_of-other "SHELL" variables "PATH" "PATH" "/usr/bin:/bin:/usr/local/bin" _ refl
    ∙ default_of-other "SHELL" variables "SHELL" "HOME" pw_shell _ refl
    ∙ default_of-other "SHELL" variables "TMPDIR" "TMPDIR" "/tmp" _ refl
    ∙ default_of-last "SHELL" variables "PWD" "PWD" "/" refl

-- A manifest that does not set SHELL leaves the process without it, whoever runs it.
pub setup_environment_variables-shell :
    (variables : Variables) (pwent : Option Passwd) (uid : String)
    → contains "SHELL" variables ≡ false
    → lookup "SHELL" (setup_environment_variables variables pwent uid) ≡ none
unfolding setup_environment_variables
setup_environment_variables-shell variables none uid h =
    rw (lookup-append "SHELL" variables (session_variables variables uid "/" "/bin/sh"), h)
      (session-shell variables uid "/" "/bin/sh")
setup_environment_variables-shell variables (some pwent) uid h = ground (
  arith,
  h,
  lookup-append "SHELL" variables
      (session_variables variables pwent.pw_name pwent.pw_dir pwent.pw_shell),
  session-shell variables pwent.pw_name pwent.pw_dir pwent.pw_shell,
)
