-- ===== src/Manager/Consistent/Serving.antt =====
-- src/rpc_server.cc: what a client asks for keeps the jobs of the manager consistent.
use mathlib.Core.Path.{subst}
use relaunchd.Rpc.Arguments.{error_reply}
use relaunchd.Prelude.{
  ◌≡◌, Option-cases, inl, inr, arith, String, Bool, true, false, List, [], ◌∷◌, not, ◌||◌,
  string_eq,
}
use relaunchd.Prelude.Assoc.{lookup}
use relaunchd.Prelude.Assoc.Entries.{Entries, Entries-lookup}
use relaunchd.Prelude.Exec.{Exec, ok, pure, ◌>>=◌}
use relaunchd.Prelude.Exec.Preserves.{
  Preserves, preserves_rules, Preserves->>=, Preserves-read, Preserves-lift,
}
use relaunchd.Rpc.Server.{
  op_disable, op_enable, op_kill, op_list, load_listed, op_load, unload_files, unload_listed,
  op_unload, op_remove, op_submit, op_version, methods, method_named, reply_of, serve, respond,
  rpc_dispatch,
}
use relaunchd.Manager.{Manager, Daemon, Found}
use relaunchd.Manager.Listing.{list_jobs}
use relaunchd.Manager.Unload.{unload_path}
use relaunchd.Manager.Load.{load_all_manifests}
use relaunchd.Manager.Consistent.{IsConsistent, try_catch-Preserves, in_channel-Preserves}
use relaunchd.Manager.Consistent.Loading.{
  override_enabled-Preserves, load_manifest-Preserves, load_all_manifests-Preserves,
}
use relaunchd.Manager.Consistent.Unloading.{
  unload_label-Preserves, unload_path-Preserves, kill_label-Preserves,
}
use relaunchd.Manager.Consistent.Running.{fire-Preserves}

module _ {I J : Type 0} (d : Daemon I J) where
  op_disable-Preserves : (args : J) → Preserves IsConsistent (op_disable d args)
  unfolding op_disable
  op_disable-Preserves args = search (preserves_rules, override_enabled-Preserves)

  op_enable-Preserves : (args : J) → Preserves IsConsistent (op_enable d args)
  unfolding op_enable
  op_enable-Preserves args = search (preserves_rules, override_enabled-Preserves)

  op_kill-Preserves : (args : J) → Preserves IsConsistent (op_kill d args)
  unfolding op_kill
  op_kill-Preserves args = search (preserves_rules, kill_label-Preserves)

  op_list-Preserves : (args : J) → Preserves IsConsistent (op_list d args)
  unfolding op_list list_jobs
  op_list-Preserves args = search preserves_rules

  load_listed-Preserves :
      (override force : Bool) (entries : List J) (error : Bool)
      → Preserves IsConsistent (load_listed d override force entries error)
  unfolding load_listed
  load_listed-Preserves override force [] error = search preserves_rules
  load_listed-Preserves override force (entry ∷ entries) error =
      Preserves-lift (d.platform.json.get_string entry) _ (λ path _.
        Preserves->>= (load_all_manifests d path override force) _
          (load_all_manifests-Preserves d path override force)
          (λ loaded. load_listed-Preserves override force entries (error || not loaded)))

  op_load-Preserves : (args : J) → Preserves IsConsistent (op_load d args)
  unfolding op_load
  op_load-Preserves args = search (preserves_rules, load_listed-Preserves, fire-Preserves) depth 8

  -- a loop that goes on, or not, as the step before it says
  on_answer :
      (more : Bool) (m n : Exec (Manager I J) Bool)
      → Preserves IsConsistent m
      → Preserves IsConsistent n
      → Preserves IsConsistent (elim more [ true ↦ m | false ↦ n ])
  on_answer true m n p q = p
  on_answer false m n p q = q

  unload_files-Preserves :
      (override force : Bool) (files : List String)
      → Preserves IsConsistent (unload_files d override force files)
  unfolding unload_files
  unload_files-Preserves override force [] = search preserves_rules
  unload_files-Preserves override force (file ∷ files) =
      Preserves->>= (unload_path d file override force) _
        (unload_path-Preserves d file override force)
        (λ done.
          on_answer done (unload_files d override force files) (pure true)
            (unload_files-Preserves override force files) (Preserves-read _))

  -- the body of the loop for what is found at the path, and the rest of it
  abbrev on_found : Found → String → Bool → Bool → Bool → List J → Exec (Manager I J) Bool
  on_found found path override force is_error entries = elim found [
    | Found.absent ↦ pure true
    | Found.directory files ↦ unload_files d override force files >>= λ failed.
        unload_listed d override force entries (is_error || failed)
    | Found.file ↦ unload_path d path override force >>= λ done. elim done [
      | true ↦ unload_listed d override force entries is_error
      | false ↦ pure true
    ]
  ]

  on_found-Preserves :
      (found : Found) (path : String) (override force is_error : Bool) (entries : List J)
      → ((e : Bool) → Preserves IsConsistent (unload_listed d override force entries e))
      → Preserves IsConsistent (on_found found path override force is_error entries)
  on_found-Preserves Found.absent path override force is_error entries rest = Preserves-read _
  on_found-Preserves (Found.directory files) path override force is_error entries rest =
      Preserves->>= (unload_files d override force files) _
        (unload_files-Preserves override force files) (λ failed. rest (is_error || failed))
  on_found-Preserves Found.file path override force is_error entries rest =
      Preserves->>= (unload_path d path override force) _
        (unload_path-Preserves d path override force)
        (λ done.
          on_answer done (unload_listed d override force entries is_error) (pure true)
            (rest is_error) (Preserves-read _))

  unload_listed-Preserves :
      (override force : Bool) (entries : List J) (is_error : Bool)
      → Preserves IsConsistent (unload_listed d override force entries is_error)
  unfolding unload_listed
  unload_listed-Preserves override force [] is_error = search preserves_rules
  unload_listed-Preserves override force (entry ∷ entries) is_error =
      Preserves-lift (d.platform.json.get_string entry) _ (λ path _.
        on_found-Preserves (d.find path) path override force is_error entries
          (λ e. unload_listed-Preserves override force entries e))

  op_unload-Preserves : (args : J) → Preserves IsConsistent (op_unload d args)
  unfolding op_unload
  op_unload-Preserves args = search (preserves_rules, unload_listed-Preserves)

  op_remove-Preserves : (args : J) → Preserves IsConsistent (op_remove d args)
  unfolding op_remove
  op_remove-Preserves args = search (preserves_rules, unload_label-Preserves)

  op_submit-Preserves : (args : J) → Preserves IsConsistent (op_submit d args)
  unfolding op_submit
  op_submit-Preserves args = search (preserves_rules, load_manifest-Preserves, fire-Preserves)

  op_version-Preserves : (args : J) → Preserves IsConsistent (op_version d args)
  unfolding op_version
  op_version-Preserves args = Preserves-read _

  -- a method of the table
  abbrev IsSafe : String → (J → Exec (Manager I J) J) → Type 0
  IsSafe name op = (args : J) → Preserves IsConsistent (op args)

  methods-IsSafe : Entries IsSafe (methods d)
  unfolding methods
  methods-IsSafe =
      search
        (
          op_disable-Preserves, op_enable-Preserves, op_kill-Preserves, op_list-Preserves,
          op_load-Preserves, op_remove-Preserves, op_submit-Preserves, op_unload-Preserves,
          op_version-Preserves,
        )
        depth 12

  method_named-IsSafe :
      (name : String) (op : J → Exec (Manager I J) J) → method_named d name ≡ ok op → IsSafe name op
  unfolding method_named
  method_named-IsSafe name op h = elim (Option-cases (lookup name (methods d))) [
    | inl e ↦ absurd (ground (arith, e, h))
    | inr (op', e) ↦
        let same : op' ≡ op = ground (arith, e, h) in
        subst (IsSafe name) same (Entries-lookup IsSafe name op' (methods d) methods-IsSafe e)
  ]

  reply_of-Preserves :
      (op : J → Exec (Manager I J) J) (msg : J)
      → Preserves IsConsistent (op msg)
      → Preserves IsConsistent (reply_of d op msg)
  reply_of-Preserves op msg p =
      try_catch-Preserves (op msg) _ p (Preserves-read (λ _. ok (error_reply d.platform.json true)))

  serve-Preserves : (msg : J) → Preserves IsConsistent (serve d msg)
  unfolding serve
  serve-Preserves msg = Preserves-lift (d.platform.json.at_index msg 0) _ (λ first _.
      Preserves-lift (d.platform.json.get_string first) _ (λ name _.
        Preserves-lift (method_named d name) _
          (λ op e. reply_of-Preserves op msg (method_named-IsSafe name op e msg))))

  respond-Preserves : Preserves IsConsistent (respond d)
  unfolding respond
  respond-Preserves = search (preserves_rules, in_channel-Preserves, serve-Preserves)

  pub rpc_dispatch-Preserves : Preserves IsConsistent (rpc_dispatch d)
  unfolding rpc_dispatch
  rpc_dispatch-Preserves =
      search (preserves_rules, in_channel-Preserves, try_catch-Preserves, respond-Preserves)
