-- ===== src/Channel/Message.antt =====
-- Messages of src/channel.cc from one end of the socket to the other.
use mathlib.Core.List.{append_assoc}
use relaunchd.Prelude.{
  ℕ, ◌≤◌, ◌<◌, ◌≡◌, ap, List, [], ◌∷◌, ◌++◌, length, arith, ◌^◌, ◌-◌, take, take-append,
  take-append_long, length-take_long, take_all, false, length-append, if◌then◌else◌, ltb,
}
use relaunchd.Prelude.Int.{pos, minus_one, is_negative}
use relaunchd.Prelude.Exec.{ok, err, runtime_error, system_error}
use relaunchd.Net.{Net, NetCall, Calls}
use relaunchd.Channel.{
  Channel, JsonText, JsonTextLaws, read_message, write_message, descriptor, buffer, encode, fd_of,
  is_closed, ipc_max_msglen, parse_buffer, or_runtime_error,
}

-- what the last call wrote
abbrev pub sent : Calls → List ℕ
sent (NetCall.write fd bytes ∷ calls) = bytes
sent _ = []

-- what the first `n` places of an array hold once a list is stored in it
fill_short :
    (n : ℕ) (xs more rest : List ℕ)
    → length xs ≤ n
    → (ys : List ℕ) × (take n (take n (xs ++ more) ++ rest) ≡ xs ++ ys)
fill_short n xs more rest h = (
  take (n - length xs) (take (n - length xs) more ++ rest),
  rw (take-append n xs more h, append_assoc xs (take (n - length xs) more) rest)
      (take-append n xs (take (n - length xs) more ++ rest) h),
)

fill_long :
    (n : ℕ) (xs more rest : List ℕ)
    → n ≤ length xs
    → take n (take n (xs ++ more) ++ rest) ≡ take n xs
fill_long n xs more rest h =
    let e = length-take_long n xs h in
    rw (take-append_long n xs more h, take-append_long n (take n xs) rest (omega (arith, e)))
      (take_all n (take n xs) (omega (arith, e)))

module _ {J : Type 0} (text : JsonText J) (of_array : List J → J) where
  pub written :
      (net : Net) (j : J) (w : Channel)
      → (write_message net text j w).0 ≡ ok tt
      → sent (write_message net text j w).1.calls ≡ encode text j
  unfolding write_message descriptor
  written net j w h = ground arith

  received :
      (net : Net) (r : Channel)
      → is_closed r ≡ false
      → is_negative (net.answer r.calls (NetCall.read (fd_of r) ipc_max_msglen)) ≡ false
      → (read_message net text r).0 ≡ parse_buffer text (buffer net (fd_of r) r.calls)
  unfolding read_message descriptor
  received net r h k = ground arith

  -- A message that `writeMessage` wrote and that fits the buffer, its null byte included, is what
  -- `readMessage` returns at the other end, whatever bytes follow it there and whatever the buffer
  -- held before: the descriptor is open, the read does not fail and finds the bytes that were sent.
  pub read_message-write_message :
      (laws : JsonTextLaws text of_array) (net net' : Net) (j : J) (w r : Channel) (more : List ℕ)
      → length (encode text j) ≤ ipc_max_msglen
      → (write_message net text j w).0 ≡ ok tt
      → is_closed r ≡ false
      → is_negative (net'.answer r.calls (NetCall.read (fd_of r) ipc_max_msglen)) ≡ false
      → net'.incoming r.calls (fd_of r) ≡ sent (write_message net text j w).1.calls ++ more
      → (read_message net' text r).0 ≡ ok j
  read_message-write_message laws net net' j w r more fits h open_r reads stream =
      let (ys, e) = fill_short ipc_max_msglen (encode text j) more (net'.garbage r.calls) fits in
      rw (received net' r open_r reads, stream, written net j w h, e)
        (ap or_runtime_error (laws.parse-dump j ys))

  -- An array whose text is longer than the buffer cannot be read back although it was written:
  -- `readMessage` throws.
  pub read_message_too_long :
      (laws : JsonTextLaws text of_array) (net net' : Net) (vs : List J) (w r : Channel)
      (more : List ℕ)
      → ipc_max_msglen < length (text.dump (of_array vs))
      → (write_message net text (of_array vs) w).0 ≡ ok tt
      → is_closed r ≡ false
      → is_negative (net'.answer r.calls (NetCall.read (fd_of r) ipc_max_msglen)) ≡ false
      → net'.incoming r.calls (fd_of r)
        ≡ sent (write_message net text (of_array vs) w).1.calls ++ more
      → (read_message net' text r).0 ≡ err runtime_error
  read_message_too_long laws net net' vs w r more long h open_r reads stream =
      let n = ipc_max_msglen in
      let bytes = text.dump (of_array vs) in
      let e = length-append bytes (0 ∷ []) in
      rw
        (
          received net' r open_r reads,
          stream,
          written net (of_array vs) w h,
          fill_long n (encode text (of_array vs)) more (net'.garbage r.calls)
              (omega (arith, e, long)),
          take-append_long n bytes (0 ∷ []) (omega (arith, long)),
        )
        (ap or_runtime_error (laws.parse-take vs n long))

module _ {J : Type 0} (text : JsonText J) where
  -- `writeMessage` throws where `write` took only a part of the message, and returns where it took
  -- all of it. It also returns where `write` failed: -1 becomes the largest `size_t`.
  pub write_message-unnoticed :
      (net : Net) (j : J) (w : Channel)
      → is_closed w ≡ false
      → length (encode text j) < 2 ^ 63
      → let bytes = net.answer w.calls (NetCall.write (fd_of w) (encode text j)) in
        let result = (write_message net text j w).0 in
        (bytes ≡ minus_one → result ≡ ok tt)
        × ((n : ℕ)
            → n < 2 ^ 63
            → bytes ≡ pos n
            → result ≡ (if ltb n (length (encode text j)) then err system_error else ok tt))
  unfolding write_message descriptor
  write_message-unnoticed net j w h k = ((λ failed. ground arith), (λ n small took. ground arith))
