-- ===== src/Rpc/Reply.antt =====
-- How src/rpc_server.cc answers a request, whatever the request is.
use relaunchd.Prelude.{◌≡◌, Bool, true, false, not, ◌⊎◌, arith, string_eq}
use relaunchd.Prelude.Int.{is_negative}
use relaunchd.Prelude.Exec.{Exec, Result, ok, err, pure, is_exception, out_of_range}
use relaunchd.Net.{Net}
use relaunchd.Channel.{Channel, accept, disconnect, read_message}
use relaunchd.Manager.{Manager, Daemon, try_catch}
use relaunchd.Rpc.Server.{rpc_dispatch, respond, serve}

-- No `catch` sees it: a failed assertion, an exception that leaves a noexcept function, undefined
-- behaviour, or a loop that does not return.
unfoldable pub is_uncaught {ℓ} : {A : Type ℓ} → Result A → Bool
is_uncaught (ok a) = false
is_uncaught (err x) = not (is_exception x)

disconnect-peerfd :
    (net : Net) (c : Channel)
    → ((disconnect net c).0 ≡ ok tt) × (is_negative (disconnect net c).1.peerfd ≡ true)
unfolding disconnect
disconnect-peerfd net c = ground arith

pub accept-returns :
    (net : Net) (c : Channel) → is_negative c.peerfd ≡ true → (accept net c).0 ≡ ok tt
unfolding accept
accept-returns net c h = ground arith

module _ {I J : Type 0} (d : Daemon I J) where
  caught :
      (m : Exec (Manager I J) Unit) (s : Manager I J)
      → ((try_catch m (pure tt) s).0 ≡ ok tt) ⊎ (is_uncaught (try_catch m (pure tt) s).0 ≡ true)
  unfolding is_uncaught
  caught m s = ground arith

  -- If no client is connected before, then whatever a client sends, and whatever the method throws:
  -- `rpc_dispatch` returns 0 and no client
  -- is connected any more, unless the program ends in a failed assertion or in an exception that
  -- leaves a noexcept function, its behaviour is undefined, or one of its loops does not return.
  pub rpc_dispatch-returns :
      (s : Manager I J)
      → is_negative s.chan.peerfd ≡ true
      → let (r, t) = rpc_dispatch d s in
        ((r ≡ ok 0) × (is_negative t.chan.peerfd ≡ true)) ⊎ (is_uncaught r ≡ true)
  unfolding rpc_dispatch is_uncaught
  rpc_dispatch-returns s h =
      let s' = record s { chan = (accept d.net s.chan).1 } in
      ground (
        arith,
        accept-returns d.net s.chan h,
        caught (respond d) s',
        disconnect-peerfd d.net (try_catch (respond d) (pure tt) s').1.chan,
      )

  -- a request that a throw of `serve` ends
  pub rpc_dispatch_unserved :
      (msg : J) (s : Manager I J)
      → is_negative s.chan.peerfd ≡ true
      → let (r, c) = read_message d.net d.text (accept d.net s.chan).1 in
        (r ≡ ok msg
          → serve d msg (record s { chan = c }) ≡ (err out_of_range, record s { chan = c })
          → rpc_dispatch d s ≡ (ok 0, record s { chan = (disconnect d.net c).1 }))
  unfolding rpc_dispatch respond
  rpc_dispatch_unserved msg s peer read unserved = ground (
    arith,
    accept-returns d.net s.chan peer,
    read,
    unserved,
    disconnect-peerfd d.net (read_message d.net d.text (accept d.net s.chan).1).1,
  )
