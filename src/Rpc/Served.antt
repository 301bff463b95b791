-- ===== src/Rpc/Served.antt =====
-- Requests of src/rpc_client.cc as src/rpc_server.cc serves them.
use relaunchd.Prelude.{
  ◌≡◌, refl, ap, ◌∙◌, String, Bool, true, false, List, [], ◌∷◌, arith, string_eq, if◌then◌else◌,
}
use mathlib.Core.Path.{subst}
use relaunchd.Prelude.Assoc.{lookup}
use relaunchd.Prelude.Exec.{
  Exec, Result, ok, err, pure, lift, ◌>>=◌, ◌>>◌, out_of_range, ok_injective, is_exception,
}
use relaunchd.Manifest.{new_label}
use relaunchd.Json.{JsonLib, MessageLaws}
use relaunchd.Channel.{accept, disconnect, read_message}
use relaunchd.Manager.{Manager, Daemon, try_catch}
use relaunchd.Manager.Load.{override_enabled}
use relaunchd.Prelude.Int.{is_negative}
use relaunchd.Rpc.Reply.{rpc_dispatch_unserved}
use relaunchd.Rpc.Arguments.{arguments, label_argument, error_reply}
use relaunchd.Rpc.Server.{
  rpc_dispatch, serve, reply_of, method_named, methods, op_enable, op_disable,
}
use relaunchd.Rpc.Client.Requests.{message, label_request}

module _ {J : Type 0} (json : JsonLib J) (laws : MessageLaws json) where
  open json use {at, at_index, get_string, of_string, of_object}

  message-method :
      (method : String) (kwargs : J)
      → at_index (message json method kwargs) 0 ≡ ok (of_string method)
  message-method method kwargs = laws.at_index-of_array (of_string method ∷ kwargs ∷ []) 0

  pub message-arguments :
      (method : String) (kwargs : J) → arguments json (message json method kwargs) ≡ ok kwargs
  message-arguments method kwargs =
      ground (arith, laws.at_index-of_array (of_string method ∷ kwargs ∷ []) 1)

  message-label :
      (method label : String)
      → label_argument json (message json method (of_object (("Label", of_string label) ∷ [])))
        ≡ new_label label
  unfolding label_argument lookup
  message-label method label =
      let kwargs = of_object (("Label", of_string label) ∷ []) in
      rw
        (
          message-arguments method kwargs,
          laws.at-of_object (("Label", of_string label) ∷ []) "Label",
          laws.get_string-of_string label,
        )
        refl

module _ {I J : Type 0} (d : Daemon I J) where
  open d use {platform}
  open platform use {json}

  abbrev pub failed : Exec (Manager I J) J
  failed = pure (error_reply json true)

  abbrev labelled : String → J
  labelled label = json.of_object (("Label", json.of_string label) ∷ [])

  -- what enable and disable do for a label
  abbrev pub override_label : Bool → String → Exec (Manager I J) J
  override_label enabled label = do
    l ← lift (new_label label)
    override_enabled d l.value enabled
    pure (error_reply json false)

  -- a reply in place of an exception
  abbrev pub settle : Result J × Manager I J → Result J × Manager I J
  settle (r, t) = elim r [
    | ok a ↦ (ok a, t)
    | err x ↦ if is_exception x then failed t else (err x, t)
  ]

module _ {I J : Type 0} (d : Daemon I J) (laws : MessageLaws d.platform.json) where
  open d use {platform, net, text}
  open platform use {json}

  pub serve-message :
      (method : String) (kwargs : J) (op : J → Exec (Manager I J) J) (s : Manager I J)
      → method_named d method ≡ ok op
      → serve d (message json method kwargs) s ≡ reply_of d op (message json method kwargs) s
  unfolding serve
  serve-message method kwargs op s h =
      rw (message-method json laws method kwargs, laws.get_string-of_string method, h) refl

  serve_unknown :
      (method : String) (kwargs : J) (s : Manager I J)
      → method_named d method ≡ err out_of_range
      → serve d (message json method kwargs) s ≡ (err out_of_range, s)
  unfolding serve
  serve_unknown method kwargs s h =
      rw (message-method json laws method kwargs, laws.get_string-of_string method, h) refl

  override_args :
      (enabled : Bool) (method label : String) (s : Manager I J)
      → let msg = message json method (labelled d label) in
        (if enabled then op_enable d msg s else op_disable d msg s)
        ≡ override_label d enabled label s
  unfolding op_enable op_disable
  override_args true method label s = rw (message-label json laws method label) refl
  override_args false method label s = rw (message-label json laws method label) refl

  serve_override :
      (enabled : Bool) (label : String) (s : Manager I J)
      → serve d (message json (if enabled then "enable" else "disable") (labelled d label)) s
        ≡ try_catch (override_label d enabled label) (failed d) s
  unfolding method_named methods lookup
  serve_override true label s =
      serve-message "enable" (labelled d label) (op_enable d) s refl
      ∙ ap (settle d) (override_args true "enable" label s)
  serve_override false label s =
      serve-message "disable" (labelled d label) (op_disable d) s refl
      ∙ ap (settle d) (override_args false "disable" label s)

  -- The request that `launchctl enable` or `launchctl disable` makes of its first argument has the
  -- daemon override the job with this label, enabled or disabled. The reply has an error if and only
  -- if that throws, be it that the argument is no label.
  pub serve-label_request :
      (enabled : Bool) (label : String) (args : List String) (msg : J) (s : Manager I J)
      → label_request json (if enabled then "enable" else "disable") (label ∷ args) ≡ ok msg
      → serve d msg s ≡ try_catch (override_label d enabled label) (failed d) s
  unfolding label_request
  serve-label_request enabled label args msg s h =
      subst (λ msg. serve d msg s ≡ try_catch (override_label d enabled label) (failed d) s)
        (ok_injective h) (serve_override enabled label s)

  unknown_method :
      (start : Bool) → method_named d (if start then "start" else "stop") ≡ err out_of_range
  unfolding method_named methods lookup
  unknown_method true = refl
  unknown_method false = refl

  -- The requests of `launchctl start` and `launchctl stop` have no method in the daemon: it throws
  -- for them whatever the label is, changes nothing but the connection and sends no reply.
  pub rpc_dispatch-start_stop :
      (start : Bool) (label : String) (args : List String) (msg : J) (s : Manager I J)
      → label_request json (if start then "start" else "stop") (label ∷ args) ≡ ok msg
      → is_negative s.chan.peerfd ≡ true
      → (read_message net text (accept net s.chan).1).0 ≡ ok msg
      → rpc_dispatch d s ≡ (
        ok 0,
        record s { chan = (disconnect net (read_message net text (accept net s.chan).1).1).1 },
      )
  unfolding label_request
  rpc_dispatch-start_stop start label args msg s h peer read =
      let c = (read_message net text (accept net s.chan).1).1 in
      rpc_dispatch_unserved d msg s peer read (
        subst
          (λ msg. serve d msg (record s { chan = c }) ≡ (err out_of_range, record s { chan = c }))
          (ok_injective h)
          (serve_unknown _ (labelled d label) (record s { chan = c }) (unknown_method start)))
