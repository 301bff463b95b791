-- ===== src/Net.antt =====
-- The calls on sockets below src/channel.cc. Every call is recorded, newest first; what a call
-- answers may depend on all calls before it. None of it is code of the repository: it is a
-- parameter of the model.
use relaunchd.Prelude.{ℕ, String, List}
use relaunchd.Prelude.Int.{ℤ}

-- The calls, with the descriptor first. A path is what `strncpy` leaves of it in `sun_path`.
pub data NetCall : Type 0 where
  socket : NetCall
  fcntl_cloexec close accept : ℤ → NetCall
  bind connect : ℤ → List ℕ → NetCall
  unlink : String → NetCall
  listen : ℤ → ℕ → NetCall
  read : ℤ → ℕ → NetCall
  write : ℤ → List ℕ → NetCall

abbrev pub Calls : Type 0
Calls = List NetCall

pub record Net : Type 0 where
  -- what the call returns, and `errno` after it
  pub answer : Calls → NetCall → ℤ
  pub errno : Calls → NetCall → ℕ
  -- the bytes that a reader finds at a descriptor
  pub incoming : Calls → ℤ → List ℕ
  -- what an array on the stack holds before it is written
  pub garbage : Calls → List ℕ
