-- ===== src/Rpc/Overridden.antt =====
-- A request to enable or disable a job from the client of src/rpc_client.cc, through the main loop's
-- rpc_dispatch of src/rpc_server.cc, to the state file of src/manager.cc.
use relaunchd.Prelude.{
  ◌≡◌, refl, ap, ◌∙◌, String, Bool, true, false, none, some, List, ◌∷◌, arith, ◌==◌, string_eq,
  if◌then◌else◌,
}
use relaunchd.Prelude.Exec.{ok}
use relaunchd.Prelude.Int.{is_negative}
use relaunchd.Json.{JsonLaws, MessageLaws}
use relaunchd.Manifest.{new_label}
use relaunchd.Os.{Call}
use relaunchd.StateFile.{Disk, set_value}
use relaunchd.StateFile.Overrides.{
  with_override, override_of, override_job_enabled, override_of-with_override,
}
use relaunchd.Channel.{accept, read_message}
use relaunchd.Manager.{Manager, Daemon}
use relaunchd.Manager.Load.{override_enabled}
use relaunchd.Rpc.Arguments.{error_reply}
use relaunchd.Rpc.Server.{rpc_dispatch, respond, serve}
use relaunchd.Rpc.Reply.{accept-returns}
use relaunchd.Rpc.Served.{override_label, settle, serve-label_request}
use relaunchd.Rpc.Client.Requests.{label_request}

module _ {I J : Type 0} (d : Daemon I J) where
  open d use {platform, net, text}
  open platform use {json}

  -- the manager once a document is written
  abbrev saved : J → Manager I J → Manager I J
  saved doc s = record s {
    state_file = record s.state_file { current_value = doc; on_disk = Disk.written doc };
    trace = Call.rename ∷ s.trace;
  }

  override_label-saved :
      (enabled : Bool) (label : String) (doc : J) (s : Manager I J)
      → new_label label ≡ ok (record { value = label })
      → with_override json label enabled s.state_file.current_value ≡ ok doc
      → platform.write_failure s.trace ≡ none
      → platform.os.rename_succeeds s.trace ≡ true
      → override_label d enabled label s ≡ (ok (error_reply json false), saved doc s)
  unfolding override_enabled override_job_enabled set_value
  override_label-saved enabled label doc s l w wr r = rw l (ground (arith, w, wr, r))

  -- the manager with the channel after the request was read
  abbrev with_request : Manager I J → Manager I J
  with_request s = record s { chan = (read_message net text (accept net s.chan).1).1 }

  rpc_dispatch-state_file :
      (msg reply : J) (s t : Manager I J)
      → is_negative s.chan.peerfd ≡ true
      → (read_message net text (accept net s.chan).1).0 ≡ ok msg
      → serve d msg (with_request s) ≡ (ok reply, t)
      → (rpc_dispatch d s).1.state_file ≡ t.state_file
  unfolding rpc_dispatch respond
  rpc_dispatch-state_file msg reply s t peer read served =
      ground (arith, accept-returns net s.chan peer, read, served)

  served-saved :
      (messages : MessageLaws json) (enabled : Bool) (label : String) (args : List String)
      (msg doc : J) (s : Manager I J)
      → label_request json (if enabled then "enable" else "disable") (label ∷ args) ≡ ok msg
      → new_label label ≡ ok (record { value = label })
      → with_override json label enabled s.state_file.current_value ≡ ok doc
      → platform.write_failure s.trace ≡ none
      → platform.os.rename_succeeds s.trace ≡ true
      → serve d msg s ≡ (ok (error_reply json false), saved doc s)
  served-saved messages enabled label args msg doc s h l w wr r =
      serve-label_request d messages enabled label args msg s h
      ∙ ap (settle d) (override_label-saved enabled label doc s l w wr r)

  -- `launchctl enable` or `launchctl disable` with a valid label, whose request the daemon reads:
  -- if the document of the state file can be edited, and writing and renaming it succeed, then after `rpc_dispatch`,
  -- whether or not the reply can be sent, the override of this label is what was asked for, in memory
  -- and on disk, and that of every other label is what it was.
  pub rpc_dispatch-override_of :
      (laws : JsonLaws json) (messages : MessageLaws json) (enabled : Bool) (label other : String)
      (args : List String) (msg doc : J) (s : Manager I J)
      → label_request json (if enabled then "enable" else "disable") (label ∷ args) ≡ ok msg
      → new_label label ≡ ok (record { value = label })
      → with_override json label enabled s.state_file.current_value ≡ ok doc
      → platform.write_failure s.trace ≡ none
      → platform.os.rename_succeeds s.trace ≡ true
      → is_negative s.chan.peerfd ≡ true
      → (read_message net text (accept net s.chan).1).0 ≡ ok msg
      → let f = (rpc_dispatch d s).1.state_file in
        (override_of json other f.current_value ≡ (
          if label == other
          then ok (some enabled)
          else override_of json other s.state_file.current_value))
        × (f.on_disk ≡ Disk.written f.current_value)
  rpc_dispatch-override_of laws messages enabled label other args msg doc s h l w wr r peer read =
      let served = served-saved messages enabled label args msg doc (with_request s) h l w wr r in
      let e = rpc_dispatch-state_file msg _ s (saved doc (with_request s)) peer read served in
      rw e (
        override_of-with_override json laws label other enabled s.state_file.current_value doc w,
        refl,
      )
