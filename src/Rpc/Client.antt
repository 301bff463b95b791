-- ===== src/Rpc/Client.antt =====
-- src/rpc_client.cc: the subcommands of launchctl, each of which makes a request, sends it and reads
-- the reply. The arguments `kwargs` of load, unload and submit are records until the loop over the
-- options is done. The files that the client looks at are the parameter `Files`.
pub mod Requests
use relaunchd.Prelude.{
  ℕ, String, Bool, true, false, ◌||◌, ◌≡◌, Option, none, some, List, [], ◌∷◌, ◌++◌, map, ◌==◌,
  string_eq, get_elem?, if◌then◌else◌,
}
use relaunchd.Prelude.Assoc.{lookup, contains}
use relaunchd.Prelude.Exec.{
  Exec, Result, ok, err, pure, throw, lift, modify, ◌>>=◌, ◌>>◌, out_of_range, undefined_behaviour,
  runtime_error,
}
use relaunchd.Prelude.Int.{ℤ}
use relaunchd.Json.{JsonLib}
use relaunchd.Net.{Net, Calls}
use relaunchd.Channel.{
  Channel, JsonText, new_channel, connect, read_message, write_message, destroy,
}
use relaunchd.Rpc.Arguments.{subscript}
use relaunchd.Rpc.Client.Requests.{
  Files, label_request, kill_request, load_request, unload_request, submit_request, plain_request,
}

-- a line of the output
pub data Line : Type 0 where
  heading : Line
  job_line : String → ℤ → String → Line
  version_line : String → Line

pub record Session : Type 0 where
  pub chan : Channel
  -- the output, newest line first
  pub printed : List Line

-- what is left of an invocation
pub record Invoked : Type 0 where
  pub calls : Calls
  pub printed : List Line

pub record ClientLib (J : Type 0) : Type 0 where
  pub json : JsonLib J
  pub text : JsonText J
  pub net : Net
  pub files : Files
  -- `j.get<int>()`
  pub get_int : J → Result ℤ

module _ {J : Type 0} (c : ClientLib J) where
  open c use {json, text, net}

  abbrev in_chan : {A : Type 0} → Exec Channel A → Exec Session A
  in_chan m s = let (r, chan) = m s.chan in (r, record s { chan = chan })

  abbrev print : Line → Exec Session Unit
  print line = modify (λ s. record s { printed = line ∷ s.printed })

  -- `chan.writeMessage(msg)`, then `chan.readMessage()`
  unfoldable pub exchange : J → Exec Session J
  unfolding write_message read_message
  exchange msg = do in_chan (write_message net text msg); in_chan (read_message net text)

  -- a subcommand that ignores the reply
  unfoldable pub request : Result J → Exec Session Unit
  unfolding exchange
  request r = lift r >>= λ msg. exchange msg >> pure tt

  unfoldable pub print_row : J → Exec Session Unit
  print_row row = do
    pid_field ← lift (subscript json (json.at row "PID"))
    pid ← lift (json.get_string pid_field)
    status_field ← lift (subscript json (json.at row "LastExitStatus"))
    exit_status ← lift (c.get_int status_field)
    label_field ← lift (subscript json (json.at row "Label"))
    label ← lift (json.get_string label_field)
    print (job_line pid exit_status label)

  unfoldable pub print_rows : List J → Exec Session Unit
  unfolding print_row
  print_rows [] = pure tt
  print_rows (row ∷ rows) = print_row row >> print_rows rows

  -- subcommand::list and subcommand::version
  unfoldable pub list_jobs : Exec Session Unit
  unfolding exchange print_rows
  list_jobs = do
    msg ← exchange (plain_request json "list")
    print heading
    print_rows (json.elements msg)

  unfoldable pub print_version : Exec Session Unit
  unfolding exchange
  print_version = do
    msg ← exchange (plain_request json "version")
    field ← lift (json.at msg "version")
    version ← lift (json.get_string field)
    print (version_line version)

  -- subcommand::subcommands
  unfoldable pub subcommands : List (String × (List String → Exec Session Unit))
  unfolding request list_jobs print_version
  subcommands =
      ("disable", λ args. request (label_request json "disable" args))
      ∷ ("enable", λ args. request (label_request json "enable" args))
      ∷ ("kill", λ args. request (kill_request json args))
      ∷ ("list", λ args. list_jobs)
      ∷ ("load", λ args. request (load_request json c.files args))
      ∷ ("remove", λ args. request (label_request json "remove" args))
      ∷ ("start", λ args. request (label_request json "start" args))
      ∷ ("stop", λ args. request (label_request json "stop" args))
      ∷ ("submit", λ args. request (submit_request json args))
      ∷ ("unload", λ args. request (unload_request json c.files args))
      ∷ ("version", λ args. print_version)
      ∷ []

  -- RpcClient::methodExists
  unfoldable pub method_exists : String → Bool
  unfolding lookup subcommands
  method_exists method = contains method subcommands

  -- `subcommands.at(method)`
  abbrev subcommand_named : String → Result (List String → Exec Session Unit)
  subcommand_named method = elim (lookup method subcommands) [
    | none ↦ err out_of_range
    | some op ↦ ok op
  ]

  -- what invokeMethod does with its channel; whether it is connected is not tested
  unfoldable pub converse : String → String → List String → Exec Session Unit
  unfolding lookup subcommands connect
  converse rpc_sock method args = do
    in_chan (connect net rpc_sock)
    op ← lift (subcommand_named method)
    op args

  -- the destructor of the channel
  abbrev hang_up : Session → Invoked
  hang_up t = record { calls = (destroy net t.chan).1.calls; printed = t.printed }

  -- RpcClient::invokeMethod, where `rpc_sock` is the socket in the state directory of the domain
  unfoldable pub invoke_method : String → String → List String → Calls → Result (Unit {0}) × Invoked
  unfolding new_channel converse destroy
  invoke_method rpc_sock method args calls =
      let (r, opened) = new_channel net calls in
      elim r [
        | err x ↦ (err x, record { calls = opened; printed = [] })
        | ok chan ↦
            let (result, t) =
              converse rpc_sock method args (record { chan = chan; printed = [] }) in
            (result, hang_up t)
      ]
