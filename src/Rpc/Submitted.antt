-- ===== src/Rpc/Submitted.antt =====
-- The submit request of src/rpc_client.cc as src/rpc_server.cc, src/manifest.cc and
-- src/manager.cc read it.
use relaunchd.Prelude.{
  ◌≡◌, refl, ap, ◌∙◌, String, Bool, true, false, Option, some, List, ◌==◌, arith, string_eq,
}
use relaunchd.Prelude.Assoc.{lookup, contains}
use relaunchd.Prelude.Exec.{Exec, ok, pure, ◌>>◌}
use relaunchd.Json.{DocumentLaws}
use relaunchd.Manifest.{Manifest, new_label, read, from_json}
use relaunchd.Manager.{Manager, ManagerTrigger, Daemon, try_catch, job_exists}
use relaunchd.Manager.Load.{
  load_manifest, load_read, load_new, add_pending, switched_off, is_shutting_down,
}
use relaunchd.Manager.Machine.{fire}
use relaunchd.Rpc.Arguments.{error_reply}
use relaunchd.Rpc.Served.{message-arguments, serve-message, failed, settle}
use relaunchd.Rpc.Server.{serve, method_named, methods, op_submit}
use relaunchd.StateFile.Overrides.{override_of}
use relaunchd.Rpc.Client.Requests.{
  Submission, submission, message, submit_request, read_submission, nothing,
}
use relaunchd.Rpc.Submission.{completed, completed_lem, from_json-submission, rectify-described}

is_named :
    (label : String) → new_label label ≡ ok (record { value = label }) → (label == "") ≡ false
unfolding new_label
is_named label h = ground arith

module _ {I J : Type 0} (d : Daemon I J) ⦃laws : DocumentLaws d.platform.json⦄ where
  open d use {platform}
  open platform use {json}

  load_read-submission :
      (label : String) (m : Manifest) (o : Option Bool) (s : Manager I J)
      → (label == "") ≡ false
      → m.label.value ≡ label
      → m.disabled ≡ false
      → job_exists label s ≡ false
      → contains label s.pending_jobs ≡ false
      → override_of json label s.state_file.current_value ≡ ok o
      → switched_off o ≡ false
      → load_read d "/dev/null" m false false s ≡ (ok true, add_pending d "/dev/null" m s)
  unfolding load_read load_new
  load_read-submission label m o s named is_label enabled new fresh doc on = ground arith

  load_manifest-submission :
      (label : String) (k : Submission) (m : Manifest) (o : Option Bool) (s : Manager I J)
      → new_label label ≡ ok (record { value = label })
      → completed label k ≡ some m
      → is_shutting_down s.state ≡ false
      → job_exists label s ≡ false
      → contains label s.pending_jobs ≡ false
      → override_of json label s.state_file.current_value ≡ ok o
      → switched_off o ≡ false
      → load_manifest d (submission json label k) "/dev/null" false false s
        ≡ (ok true, add_pending d "/dev/null" m s)
  unfolding load_manifest
  load_manifest-submission label k m o s valid complete up new fresh doc on =
      let is_m : from_json json (submission json label k) ≡ ok m =
        from_json-submission json label k valid ∙ rectify-described label k m complete in
      let (is_label, enabled) = completed_lem label k m complete in
      rw (up, is_m)
        (load_read-submission label m o s (is_named label valid) is_label enabled new fresh doc on)

  -- what submit does once the job is pending
  abbrev pub start_submitted : Exec (Manager I J) J
  start_submitted = fire d ManagerTrigger.start_requested >> pure (error_reply json true)

  op_submit-submission :
      (label : String) (k : Submission) (s t : Manager I J)
      → load_manifest d (submission json label k) "/dev/null" false false s ≡ (ok true, t)
      → op_submit d (message json "submit" (submission json label k)) s ≡ start_submitted t
  unfolding op_submit
  op_submit-submission label k s t h =
      rw (message-arguments json laws.messages "submit" (submission json label k), h) refl

  submit_request-submission :
      (args : List String) (k : Submission) (label : String)
      → read_submission args nothing ≡ ok k
      → k.label ≡ some label
      → submit_request json args ≡ ok (message json "submit" (submission json label k))
  unfolding submit_request
  submit_request-submission args k label read is_label = rw (read, is_label) refl

  -- If the arguments of `launchctl submit` have a label that is valid and a program or its
  -- arguments, then for a manager that is not shutting down, that knows no job of this label and
  -- whose state file does not disable it, the request makes the job pending that has this label,
  -- the program (the first argument, if none is given), its arguments (the program alone, if none
  -- are given) and the two paths ("/dev/null", if not given), and the defaults otherwise, among them
  -- neither KeepAlive nor RunAtLoad, and then starts what is pending. The reply has "error" true, also after an exception that is caught.
  pub serve-submit_request :
      (args : List String) (k : Submission) (label : String) (m : Manifest) (o : Option Bool)
      (s : Manager I J)
      → read_submission args nothing ≡ ok k
      → k.label ≡ some label
      → new_label label ≡ ok (record { value = label })
      → completed label k ≡ some m
      → is_shutting_down s.state ≡ false
      → job_exists label s ≡ false
      → contains label s.pending_jobs ≡ false
      → override_of json label s.state_file.current_value ≡ ok o
      → switched_off o ≡ false
      → (msg : J) × (submit_request json args ≡ ok msg)
        × (serve d msg s ≡ try_catch start_submitted (failed d) (add_pending d "/dev/null" m s))
  unfolding method_named methods lookup
  serve-submit_request args k label m o s read is_label valid complete up new fresh doc on =
      let loaded = load_manifest-submission label k m o s valid complete up new fresh doc on in
      (
        message json "submit" (submission json label k),
        submit_request-submission args k label read is_label,
        serve-message d laws.messages "submit" (submission json label k) (op_submit d) s refl
            ∙ ap (settle d) (op_submit-submission label k s _ loaded),
      )
