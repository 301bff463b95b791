-- ===== src/Rpc/Server.antt =====
-- src/rpc_server.cc: the methods that the daemon offers, and how a request reaches them.
use relaunchd.Prelude.{
  ℕ, String, Bool, true, false, not, ◌||◌, none, some, List, [], ◌∷◌, string_eq,
}
use relaunchd.Prelude.Assoc.{lookup}
use relaunchd.Prelude.Exec.{Exec, Result, ok, err, pure, lift, ◌>>=◌, ◌>>◌, out_of_range}
use Prim.Native.String.{◌++◌ as append}
use relaunchd.Rpc.Arguments.{
  arguments, argument, text_argument, flag_argument, label_argument, error_reply,
}
use relaunchd.Channel.{accept, read_message, write_message, disconnect}
use relaunchd.Manager.{Manager, ManagerTrigger, Daemon, Found, in_channel, try_catch}
use relaunchd.Manager.Load.{override_enabled, load_manifest, load_all_manifests}
use relaunchd.Manager.Unload.{unload_label, unload_path, kill_label}
use relaunchd.Manager.Listing.{list_jobs}
use relaunchd.Manager.Machine.{fire}

module _ {I J : Type 0} (d : Daemon I J) where
  open d use {platform, net, text}
  open platform use {json}

  -- _rpc_op_disable and _rpc_op_enable
  unfoldable pub op_disable : J → Exec (Manager I J) J
  unfolding label_argument override_enabled
  op_disable args = do
    label ← lift (label_argument json args)
    override_enabled d label.value false
    pure (error_reply json false)

  unfoldable pub op_enable : J → Exec (Manager I J) J
  unfolding label_argument override_enabled
  op_enable args = do
    label ← lift (label_argument json args)
    override_enabled d label.value true
    pure (error_reply json false)

  -- _rpc_op_kill
  unfoldable pub op_kill : J → Exec (Manager I J) J
  unfolding label_argument kill_label
  op_kill args = do
    label ← lift (label_argument json args)
    signal ← lift (text_argument json "Signal" args)
    sent ← kill_label d label.value signal
    pure (error_reply json sent)

  -- _rpc_op_list
  unfoldable pub op_list : J → Exec (Manager I J) J
  unfolding list_jobs
  op_list args = list_jobs d

  -- the loop of _rpc_op_load
  unfoldable pub load_listed : Bool → Bool → List J → Bool → Exec (Manager I J) Bool
  unfolding load_all_manifests
  load_listed override_disabled force_load [] error = pure error
  load_listed override_disabled force_load (entry ∷ entries) error = do
    path ← lift (json.get_string entry)
    loaded ← load_all_manifests d path override_disabled force_load
    load_listed override_disabled force_load entries (error || not loaded)

  -- _rpc_op_load
  unfoldable pub op_load : J → Exec (Manager I J) J
  unfolding load_listed fire
  op_load args = do
    force_load ← lift (flag_argument json "Force" args)
    override_disabled ← lift (flag_argument json "OverrideDisabled" args)
    paths ← lift (argument json "Paths" args)
    error ← load_listed override_disabled force_load (json.elements paths) false
    fire d ManagerTrigger.start_requested
    pure (error_reply json error)

  -- the files of a directory: true once one could not be unloaded
  unfoldable pub unload_files : Bool → Bool → List String → Exec (Manager I J) Bool
  unfolding unload_path
  unload_files override_disabled force_unload [] = pure false
  unload_files override_disabled force_unload (file ∷ files) =
      unload_path d file override_disabled force_unload >>= λ done. elim done [
        | true ↦ unload_files override_disabled force_unload files
        | false ↦ pure true
      ]

  -- the loop of _rpc_op_unload, which ends at a path that is missing or a file that stays loaded
  unfoldable pub unload_listed : Bool → Bool → List J → Bool → Exec (Manager I J) Bool
  unfolding unload_files
  unload_listed override_disabled force_unload [] is_error = pure is_error
  unload_listed override_disabled force_unload (entry ∷ entries) is_error =
      lift (json.get_string entry) >>= λ path. elim (d.find path) [
        | Found.absent ↦ pure true
        | Found.directory files ↦ unload_files override_disabled force_unload files >>= λ failed.
            unload_listed override_disabled force_unload entries (is_error || failed)
        | Found.file ↦ unload_path d path override_disabled force_unload >>= λ done. elim done [
          | true ↦ unload_listed override_disabled force_unload entries is_error
          | false ↦ pure true
        ]
      ]

  -- _rpc_op_unload
  unfoldable pub op_unload : J → Exec (Manager I J) J
  unfolding unload_listed
  op_unload args = do
    force_unload ← lift (flag_argument json "Force" args)
    override_disabled ← lift (flag_argument json "OverrideDisabled" args)
    paths ← lift (argument json "Paths" args)
    is_error ← unload_listed override_disabled force_unload (json.elements paths) false
    pure (error_reply json is_error)

  -- _rpc_op_remove
  unfoldable pub op_remove : J → Exec (Manager I J) J
  unfolding label_argument unload_label
  op_remove args = do
    label ← lift (label_argument json args)
    status ← unload_label d label.value false false
    pure (error_reply json status)

  -- _rpc_op_submit
  unfoldable pub op_submit : J → Exec (Manager I J) J
  unfolding load_manifest fire
  op_submit args = do
    manifest ← lift (arguments json args)
    loaded ← load_manifest d manifest "/dev/null" false false
    fire d ManagerTrigger.start_requested
    pure (error_reply json loaded)

  -- _rpc_op_version
  unfoldable pub op_version : J → Exec (Manager I J) J
  op_version args = pure (
      json.of_object (
        ("error", json.of_bool false)
        ∷ ("version", json.of_string (append "relaunch version " d.version))
        ∷ []))

  -- the table of rpc_dispatch
  unfoldable pub methods : List (String × (J → Exec (Manager I J) J))
  methods =
      ("disable", op_disable)
      ∷ ("enable", op_enable)
      ∷ ("kill", op_kill)
      ∷ ("list", op_list)
      ∷ ("load", op_load)
      ∷ ("remove", op_remove)
      ∷ ("submit", op_submit)
      ∷ ("unload", op_unload)
      ∷ ("version", op_version)
      ∷ []

  -- `handlers.at(method)`
  unfoldable pub method_named : String → Result (J → Exec (Manager I J) J)
  unfolding lookup methods
  method_named method = elim (lookup method methods) [ none ↦ err out_of_range | some op ↦ ok op ]

  -- the method, and its exceptions as a reply
  abbrev pub reply_of : (J → Exec (Manager I J) J) → J → Exec (Manager I J) J
  reply_of op msg = try_catch (op msg) (pure (error_reply json true))

  -- the method that a request names, and its reply
  unfoldable pub serve : J → Exec (Manager I J) J
  unfolding method_named
  serve msg = do
    first ← lift (json.at_index msg 0)
    method ← lift (json.get_string first)
    op ← lift (method_named method)
    reply_of op msg

  -- the body of the `try`
  unfoldable pub respond : Exec (Manager I J) Unit
  unfolding read_message write_message serve
  respond = do
    msg ← in_channel (read_message net text)
    response ← serve msg
    in_channel (write_message net text response)

  unfoldable pub rpc_dispatch : Exec (Manager I J) ℕ
  unfolding accept respond disconnect
  rpc_dispatch = do
    in_channel (accept net)
    try_catch respond (pure tt)
    in_channel (disconnect net)
    pure 0
