-- ===== src/Rpc/Unloading.antt =====
-- The unload request of src/rpc_client.cc as src/rpc_server.cc serves it.
use relaunchd.Prelude.{
  ◌≡◌, refl, sym, ap, ◌∙◌, String, Bool, true, false, ◌||◌, List, [], ◌∷◌, map, filter_by,
  string_eq, arith,
}
use relaunchd.Prelude.Assoc.{lookup}
use relaunchd.Prelude.Exec.{Exec, continue, ok, pure, ◌>>=◌}
use relaunchd.Json.{MessageLaws}
use relaunchd.Manager.{Manager, Daemon, Found, try_catch}
use relaunchd.Manager.Unload.{unload_path}
use relaunchd.Rpc.Options.{mentions, is_path, resolve, made_request}
use relaunchd.Rpc.Served.{serve-message, failed, settle}
use relaunchd.Rpc.Loading.{loading_entry, continue-eq}
use relaunchd.Rpc.Arguments.{error_reply}
use relaunchd.Rpc.Server.{serve, method_named, methods, op_unload, unload_files, unload_listed}
use relaunchd.Rpc.Client.Requests.{Files, Loading, message, loading, unload_request}

module _ {I J : Type 0} (d : Daemon I J) where
  open d use {platform}
  open platform use {json}

  -- what is done about one path, before the rest of the paths
  abbrev unload_found :
      Bool
      → Bool
      → Found
      → String
      → (Bool → Exec (Manager I J) Bool)
      → Bool
      → Exec (Manager I J) Bool
  unload_found override_disabled force_unload found path rest error = elim found [
    | Found.absent ↦ pure true
    | Found.file ↦ unload_path d path override_disabled force_unload >>= λ done. elim done [
      | true ↦ rest error
      | false ↦ pure true
    ]
    | Found.directory files ↦
        unload_files d override_disabled force_unload files >>= λ failed. rest (error || failed)
  ]

  unload_found-eq :
      (override_disabled force_unload : Bool) (found : Found) (path : String)
      (rest rest' : Bool → Exec (Manager I J) Bool) (error : Bool) (s : Manager I J)
      → ((e : Bool) (t : Manager I J) → rest e t ≡ rest' e t)
      → unload_found override_disabled force_unload found path rest error s
        ≡ unload_found override_disabled force_unload found path rest' error s
  unload_found-eq override_disabled force_unload Found.absent path rest rest' error s h = refl
  unload_found-eq override_disabled force_unload Found.file path rest rest' error s h =
      let (r, t) = unload_path d path override_disabled force_unload s in
      continue-eq r _ _ t (λ done. ground (arith, h error t))
  unload_found-eq override_disabled force_unload (Found.directory files) path rest rest' error s h =
      let (r, t) = unload_files d override_disabled force_unload files s in
      continue-eq r _ _ t (λ failed. h (error || failed) t)

  -- Each path in turn, up to one that is missing or a file that stays loaded, which is an error. A
  -- file in a directory that stays loaded ends only that directory.
  unfoldable pub unload_every : Bool → Bool → List String → Bool → Exec (Manager I J) Bool
  unload_every override_disabled force_unload [] error = pure error
  unload_every override_disabled force_unload (path ∷ paths) error =
      unload_found override_disabled force_unload (d.find path) path
        (unload_every override_disabled force_unload paths) error

  -- what the unload method does, once its arguments are read
  abbrev pub unload_all : Loading → Exec (Manager I J) J
  unload_all k = do
    error ← unload_every k.override_disabled k.force k.paths false
    pure (error_reply json error)

module _ {I J : Type 0} (d : Daemon I J) (laws : MessageLaws d.platform.json) where
  open d use {platform}
  open platform use {json}

  unload_listed-map :
      (override_disabled force_unload : Bool) (paths : List String) (error : Bool) (s : Manager I J)
      → unload_listed d override_disabled force_unload (map json.of_string paths) error s
        ≡ unload_every d override_disabled force_unload paths error s
  unfolding unload_listed unload_every
  unload_listed-map override_disabled force_unload [] error s = refl
  unload_listed-map override_disabled force_unload (path ∷ paths) error s =
      rw (laws.get_string-of_string path) (
        unload_found-eq d override_disabled force_unload (d.find path) path _ _ error s
          (unload_listed-map override_disabled force_unload paths))

  unload_args :
      (k : Loading) (s : Manager I J)
      → op_unload d (message json "unload" (loading json k)) s ≡ unload_all d k s
  unfolding op_unload lookup
  unload_args k s =
      let v = json.of_array (map json.of_string k.paths) in
      rw
        (
          loading_entry json laws "unload" "Force" k (json.of_bool k.force) refl,
          loading_entry json laws "unload" "OverrideDisabled" k (json.of_bool k.override_disabled)
              refl,
          loading_entry json laws "unload" "Paths" k v refl,
          laws.get_bool-of_bool k.force,
          laws.get_bool-of_bool k.override_disabled,
          laws.elements-of_array (map json.of_string k.paths),
        )
        (ap (λ p. continue p.0 (λ error. pure (error_reply json error)) p.1)
          (unload_listed-map k.override_disabled k.force k.paths false s))

  serve-unloading :
      (k : Loading) (s : Manager I J)
      → serve d (message json "unload" (loading json k)) s ≡ try_catch (unload_all d k) (failed d) s
  unfolding method_named methods lookup
  serve-unloading k s =
      serve-message d laws "unload" (loading json k) (op_unload d) s refl
      ∙ ap (settle d) (unload_args k s)

  -- The request that `launchctl unload` makes of its arguments has the daemon unload the canonical
  -- forms of all arguments but "-w" and "-F", in their order, with the override if "-w" is anywhere
  -- among them and forced if "-F" is. It stops with an error at the first path that is missing and
  -- at the first file that stays loaded; in a directory such a file ends the directory alone.
  pub serve-unload_request :
      (files : Files) (args : List String) (msg : J) (s : Manager I J)
      → unload_request json files args ≡ ok msg
      → (paths : List String) × (resolve files (filter_by is_path args) ≡ ok paths)
        × (serve d msg s
            ≡ try_catch
                (unload_all d (record {
                  override_disabled = mentions "-w" args;
                  force = mentions "-F" args;
                  paths = paths;
                }))
                (failed d)
                s)
  unfolding unload_request
  serve-unload_request files args msg s h =
      let (paths, resolved, made) = made_request json "unload" files args msg h in
      (paths, resolved, ap (λ m. serve d m s) (sym made) ∙ serve-unloading _ s)
