-- ===== src/Channel.antt =====
-- src/channel.h and src/channel.cc: the socket over which the daemon and its clients exchange JSON
-- messages.
pub mod Message
use relaunchd.Prelude.{
  ◌≡◌, ℕ, ◌+◌, ◌-◌, ◌^◌, ◌%◌, ◌<◌, String, Bool, true, false, not, ◌&&◌, List, [], ◌∷◌, ◌++◌,
  length, ltb, ◌==◌, nat_eq, if◌then◌else◌, take,
}
use relaunchd.Prelude.Exec.{
  Exec, Result, ok, err, pure, throw, lift, gets, modify, ◌>>=◌, ◌>>◌, system_error, logic_error,
  runtime_error, parse_error, is_exception,
}
use relaunchd.Prelude.Int.{ℤ, pos, negsuc, minus_one, int_eq, is_negative}
use relaunchd.Prelude.Text.{codes}
use relaunchd.Net.{Net, NetCall, Calls}

-- `j.dump()` as bytes and `json::parse` of a character array
pub record JsonText (J : Type 0) : Type 0 where
  pub dump : J → List ℕ
  pub parse : List ℕ → Result J

-- What JSON and the library promise: a null byte ends the text that is read from an array, and an
-- array that misses its end is no text. `of_array` makes the array of some values.
pub record JsonTextLaws {J : Type 0} (text : JsonText J) (of_array : List J → J) : Type 0 where
  pub parse-dump : (j : J) (rest : List ℕ) → text.parse ((text.dump j ++ (0 ∷ [])) ++ rest) ≡ ok j
  pub parse-take :
      (vs : List J) (n : ℕ)
      → n < length (text.dump (of_array vs))
      → text.parse (take n (text.dump (of_array vs))) ≡ err parse_error

pub record Channel : Type 0 where
  pub sockfd : ℤ
  pub peerfd : ℤ
  pub calls : Calls

-- IPC_MAX_MSGLEN
abbrev pub ipc_max_msglen : ℕ
ipc_max_msglen = 32768

abbrev sun_path : String → List ℕ
sun_path path = take 107 (codes path)

-- a `ssize_t` converted to `size_t`
abbrev pub size_of : ℤ → ℕ
size_of (pos n) = n % 2 ^ 64
size_of (negsuc n) = 2 ^ 64 - (n + 1)

abbrev pub fd_of : Channel → ℤ
fd_of s = if is_negative s.peerfd then s.sockfd else s.peerfd

abbrev pub is_closed : Channel → Bool
is_closed s = is_negative s.peerfd && is_negative s.sockfd

-- `catch (...) { throw std::runtime_error }`
abbrev pub or_runtime_error : {J : Type 0} → Result J → Result J
or_runtime_error (ok j) = ok j
or_runtime_error (err x) = if is_exception x then err runtime_error else err x

module _ {J : Type 0} (text : JsonText J) where
  -- `json::parse` in a `try` that turns every exception into one of its own
  abbrev pub parse_buffer : List ℕ → Result J
  parse_buffer buf = or_runtime_error (text.parse buf)

  -- the bytes of a message, with the null byte at the end
  abbrev pub encode : J → List ℕ
  encode j = text.dump j ++ (0 ∷ [])

-- `if (b) throw std::system_error`
abbrev pub fail_if : Bool → Exec Channel Unit
fail_if b = if b then throw system_error else pure tt

-- the descriptor that messages go over
unfoldable pub descriptor : Exec Channel ℤ
descriptor s = if is_closed s then (err logic_error, s) else (ok (fd_of s), s)

-- Channel::getSockFD
unfoldable pub get_sock_fd : Exec Channel ℕ
get_sock_fd s = elim s.sockfd [ pos fd ↦ (ok fd, s) | negsuc n ↦ (err runtime_error, s) ]

module _ (net : Net) where
  -- a call on a socket
  abbrev pub call : NetCall → Exec Channel ℤ
  call c s = (ok (net.answer s.calls c), record s { calls = c ∷ s.calls })

  -- Channel::Channel
  unfoldable pub new_channel : Exec Calls Channel
  new_channel calls =
      let fd = net.answer calls NetCall.socket in
      let opened = NetCall.socket ∷ calls in
      let set = NetCall.fcntl_cloexec fd in
      if is_negative fd
      then (err system_error, opened)
      else if is_negative (net.answer opened set)
      then (err system_error, set ∷ opened)
      else (ok (record { sockfd = fd; peerfd = minus_one; calls = set ∷ opened }), set ∷ opened)

  -- a failed `bind` is tried again once the file is removed, if the address was in use
  unfoldable pub bind_again : ℤ → String → ℕ → Exec Channel Unit
  bind_again fd path errno =
      if errno == 98
      then (do
        call (NetCall.unlink path)
        rv ← call (NetCall.bind fd (sun_path path))
        fail_if (is_negative rv))
      else throw system_error

  -- Channel::bindAndListen
  unfoldable pub bind_and_listen : String → ℕ → Exec Channel Unit
  unfolding bind_again
  bind_and_listen path backlog = do
    fd ← gets (λ s. s.sockfd)
    errno ← gets (λ s. net.errno s.calls (NetCall.bind fd (sun_path path)))
    rv ← call (NetCall.bind fd (sun_path path))
    if is_negative rv then bind_again fd path errno else pure tt
    result ← call (NetCall.listen fd backlog)
    fail_if (not (result == pos 0))

  -- Channel::accept: a failure is only logged
  unfoldable pub accept : Exec Channel Unit
  accept s =
      if is_negative s.peerfd
      then ((do
        result ← call (NetCall.accept s.sockfd)
        if is_negative result then pure tt else modify (λ t. record t { peerfd = result }))
          s)
      else (err logic_error, s)

  -- Channel::connect
  unfoldable pub connect : String → Exec Channel ℤ
  connect path = do
    fd ← gets (λ s. s.sockfd)
    result ← call (NetCall.connect fd (sun_path path))
    pure (if result == pos 0 then pos 0 else minus_one)

  -- the array `buf` after `read` stored the bytes it found
  abbrev pub buffer : ℤ → Calls → List ℕ
  buffer fd calls =
      take ipc_max_msglen (take ipc_max_msglen (net.incoming calls fd) ++ net.garbage calls)

  -- Channel::disconnect
  unfoldable pub disconnect : Exec Channel Unit
  disconnect s =
      if is_negative s.peerfd
      then (ok tt, s)
      else (call (NetCall.close s.peerfd) >> modify (λ t. record t { peerfd = minus_one })) s

  -- Channel::unbindAndStopListening
  unfoldable pub unbind_and_stop_listening : Exec Channel Unit
  unbind_and_stop_listening s =
      if is_negative s.sockfd
      then (ok tt, s)
      else (call (NetCall.close s.sockfd) >> modify (λ t. record t { sockfd = minus_one })) s

  -- Channel::~Channel
  unfoldable pub destroy : Exec Channel Unit
  destroy = do
    sockfd ← gets (λ s. s.sockfd)
    if is_negative sockfd then pure tt else (call (NetCall.close sockfd) >> pure tt)
    peerfd ← gets (λ s. s.peerfd)
    if is_negative peerfd then pure tt else (call (NetCall.close peerfd) >> pure tt)

  module _ {J : Type 0} (text : JsonText J) where
    -- Channel::readMessage
    unfoldable pub read_message : Exec Channel J
    unfolding descriptor
    read_message = do
      fd ← descriptor
      buf ← gets (λ s. buffer fd s.calls)
      bytes ← call (NetCall.read fd ipc_max_msglen)
      fail_if (is_negative bytes)
      lift (parse_buffer text buf)

    -- Channel::writeMessage
    unfoldable pub write_message : J → Exec Channel Unit
    unfolding descriptor
    write_message j = do
      fd ← descriptor
      bytes ← call (NetCall.write fd (encode text j))
      fail_if (ltb (size_of bytes) (length (encode text j)))
