-- ===== src/Rpc/Loading.antt =====
-- The load request of src/rpc_client.cc as src/rpc_server.cc serves it.
use relaunchd.Prelude.{
  ◌≡◌, refl, sym, ap, ◌∙◌, String, Bool, false, not, ◌||◌, some, List, [], ◌∷◌, map, filter_by,
  string_eq,
}
use relaunchd.Prelude.Assoc.{lookup}
use relaunchd.Prelude.Exec.{Exec, continue, Result, ok, err, pure, ◌>>=◌, ◌>>◌}
use relaunchd.Json.{JsonLib, MessageLaws}
use relaunchd.Manager.{Manager, ManagerTrigger, Daemon, try_catch}
use relaunchd.Manager.Load.{load_all_manifests}
use relaunchd.Manager.Machine.{fire}
use relaunchd.Rpc.Options.{mentions, is_path, resolve, made_request}
use relaunchd.Rpc.Served.{message-arguments, serve-message, failed, settle}
use relaunchd.Rpc.Arguments.{argument, error_reply}
use relaunchd.Rpc.Server.{serve, method_named, methods, op_load, load_listed}
use relaunchd.Rpc.Client.Requests.{Files, Loading, message, loading, load_request}

pub continue-eq :
    {S A B : Type 0} (r : Result A) (f g : A → Exec S B) (s : S)
    → ((a : A) → f a s ≡ g a s)
    → continue r f s ≡ continue r g s
continue-eq (ok a) f g s h = h a
continue-eq (err x) f g s h = refl

module _ {J : Type 0} (json : JsonLib J) (laws : MessageLaws json) where
  open json use {of_string}

  pub loading_entry :
      (method key : String) (k : Loading) (v : J)
      → lookup key (
          ("OverrideDisabled", json.of_bool k.override_disabled)
          ∷ ("Force", json.of_bool k.force)
          ∷ ("Paths", json.of_array (map of_string k.paths))
          ∷ [])
        ≡ some v
      → argument json key (message json method (loading json k)) ≡ ok v
  loading_entry method key k v h =
      rw (message-arguments json laws method (loading json k), laws.at-of_object _ key, h) refl

module _ {I J : Type 0} (d : Daemon I J) where
  open d use {platform}
  open platform use {json}

  -- `loadAllManifests` for each path in turn: true once one returned false
  unfoldable pub load_every : Bool → Bool → List String → Bool → Exec (Manager I J) Bool
  load_every override_disabled force_load [] error = pure error
  load_every override_disabled force_load (path ∷ paths) error =
      load_all_manifests d path override_disabled force_load >>= λ loaded.
      load_every override_disabled force_load paths (error || not loaded)

  abbrev finish_load : Bool → Exec (Manager I J) J
  finish_load error = fire d ManagerTrigger.start_requested >> pure (error_reply json error)

  -- what the load method does, once its arguments are read
  abbrev pub load_all : Loading → Exec (Manager I J) J
  load_all k = do error ← load_every k.override_disabled k.force k.paths false; finish_load error

module _ {I J : Type 0} (d : Daemon I J) (laws : MessageLaws d.platform.json) where
  open d use {platform}
  open platform use {json}

  load_listed-map :
      (override_disabled force_load : Bool) (paths : List String) (error : Bool) (s : Manager I J)
      → load_listed d override_disabled force_load (map json.of_string paths) error s
        ≡ load_every d override_disabled force_load paths error s
  unfolding load_listed load_every
  load_listed-map override_disabled force_load [] error s = refl
  load_listed-map override_disabled force_load (path ∷ paths) error s =
      let (r, t) = load_all_manifests d path override_disabled force_load s in
      rw (laws.get_string-of_string path) (
        continue-eq r _ _ t
          (λ loaded. load_listed-map override_disabled force_load paths (error || not loaded) t))

  load_args :
      (k : Loading) (s : Manager I J)
      → op_load d (message json "load" (loading json k)) s ≡ load_all d k s
  unfolding op_load lookup
  load_args k s =
      let v = json.of_array (map json.of_string k.paths) in
      rw
        (
          loading_entry json laws "load" "Force" k (json.of_bool k.force) refl,
          loading_entry json laws "load" "OverrideDisabled" k (json.of_bool k.override_disabled)
              refl,
          loading_entry json laws "load" "Paths" k v refl,
          laws.get_bool-of_bool k.force,
          laws.get_bool-of_bool k.override_disabled,
          laws.elements-of_array (map json.of_string k.paths),
        )
        (ap (λ p. continue p.0 (finish_load d) p.1)
          (load_listed-map k.override_disabled k.force k.paths false s))

  serve-loading :
      (k : Loading) (s : Manager I J)
      → serve d (message json "load" (loading json k)) s ≡ try_catch (load_all d k) (failed d) s
  unfolding method_named methods lookup
  serve-loading k s =
      serve-message d laws "load" (loading json k) (op_load d) s refl
      ∙ ap (settle d) (load_args k s)

  -- The request that `launchctl load` makes of its arguments has the daemon call `loadAllManifests`
  -- for the canonical forms of all arguments but "-w" and "-F", in their order, with the override if
  -- "-w" is anywhere among them and forced if "-F" is, and then start what is pending.
  pub serve-load_request :
      (files : Files) (args : List String) (msg : J) (s : Manager I J)
      → load_request json files args ≡ ok msg
      → (paths : List String) × (resolve files (filter_by is_path args) ≡ ok paths)
        × (serve d msg s
            ≡ try_catch
                (load_all d (record {
                  override_disabled = mentions "-w" args;
                  force = mentions "-F" args;
                  paths = paths;
                }))
                (failed d)
                s)
  unfolding load_request
  serve-load_request files args msg s h =
      let (paths, resolved, made) = made_request json "load" files args msg h in
      (paths, resolved, ap (λ m. serve d m s) (sym made) ∙ serve-loading _ s)
