-- ===== src/Rpc/Arguments.antt =====
-- How the methods of src/rpc_server.cc read the arguments of a request.
use relaunchd.Prelude.{String, Bool, [], ◌∷◌}
use relaunchd.Prelude.Exec.{Result, ok, err, out_of_range, undefined_behaviour}
use relaunchd.Prelude.Throw.{◌>>=◌}
use relaunchd.Manifest.{Label, new_label}
use relaunchd.Json.{JsonLib}

module _ {J : Type 0} (json : JsonLib J) where
  open json use {at, at_index, get_string, get_bool, of_bool, of_object}

  -- `operator[]` of a const value: a missing entry is undefined behaviour
  abbrev pub subscript : Result J → Result J
  subscript (ok v) = ok v
  subscript (err out_of_range) = err undefined_behaviour
  subscript (err x) = err x

  -- `args[1]`
  abbrev pub arguments : J → Result J
  arguments args = subscript (at_index args 1)

  -- `args[1][key]`, and what it is as a text, a truth value or a label
  abbrev pub argument : String → J → Result J
  argument key args = arguments args >>= λ kwargs. subscript (at kwargs key)

  abbrev pub text_argument : String → J → Result String
  text_argument key args = argument key args >>= get_string

  abbrev pub flag_argument : String → J → Result Bool
  flag_argument key args = argument key args >>= get_bool

  unfoldable pub label_argument : J → Result Label
  label_argument args = text_argument "Label" args >>= new_label

  -- `{{"error", b}}`
  abbrev pub error_reply : Bool → J
  error_reply b = of_object (("error", of_bool b) ∷ [])
