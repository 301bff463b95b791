-- ===== src/Wrapper.antt =====
-- sa-wrapper/wrapper.c: the library that gives a server the sockets which launchd opened for it, in
-- place of those that it binds itself. The dynamic loader, the environment, the allocator and the
-- sockets are parameters.
pub mod Decimal
pub mod Inherited
use relaunchd.Prelude.{
  ℕ, zero, suc, ◌+◌, ◌-◌, ◌%◌, ◌^◌, ◌≡◌, refl, Bool, true, false, not, ◌&&◌, Option, none, some,
  List, [], ◌∷◌, is_empty, leb, ltb, ◌==◌, nat_eq, if◌then◌else◌,
}
use relaunchd.Prelude.Int.{ℤ, pos, negsuc, minus_one, is_negative}
use relaunchd.Prelude.Text.{codes, skip_space, read_sign, read_digits}

-- struct sock_info; of the address only the port is used
pub record SockInfo : Type 0 where
  pub fd : ℤ
  pub port : ℕ

pub record World : Type 0 where
  pub dlopen_succeeds : Bool
  pub dlsym_succeeds : Bool
  -- the value of LISTEN_FDS
  pub listen_fds : Option (List ℕ)
  pub calloc_succeeds : ℕ → Bool
  -- by the round of the loop
  pub malloc_succeeds : ℕ → Bool
  -- the port that the memory from `malloc` happens to hold
  pub fresh_port : ℕ → ℕ
  -- the port that the socket is bound to
  pub getsockname : ℤ → Option ℕ

-- what the constructor of the library leaves: the array `s_info`, with `s_cnt` entries
pub data Loaded : Type 0 where
  ready : List SockInfo → Loaded
  -- `err(1, ...)`
  exited : Loaded
  -- a write through a null pointer
  crashed : Loaded

abbrev pub is_digit : ℕ → Bool
is_digit c = leb b'0' c && ltb (c - b'0') 10

unfoldable pub drop_digits : List ℕ → List ℕ
drop_digits [] = []
drop_digits (c ∷ cs) = if is_digit c then drop_digits cs else c ∷ cs

-- a minus is taken modulo 2 ^ 64, and what is too large becomes ULONG_MAX
abbrev pub unsigned : Bool → ℕ → ℕ
unsigned minus n =
    if leb n (2 ^ 64 - 1) then if minus then (2 ^ 64 - n) % 2 ^ 64 else n else 2 ^ 64 - 1

-- the digits at the front of `rest`, if there are any
abbrev pub converted : List ℕ → Bool → List ℕ → Option ℕ → ℕ × List ℕ
converted buf minus rest none = (0, buf)
converted buf minus rest (some n) = (unsigned minus n, drop_digits rest)

-- `strtoul(buf, &errp, 10)` and the text at `errp`
unfoldable pub strtoul : List ℕ → ℕ × List ℕ
unfolding skip_space read_digits drop_digits
strtoul buf =
    let (minus, rest) = read_sign (skip_space buf) in
    converted buf minus rest (read_digits 10 0 false rest)

-- the conversion of a `size_t` to `int`
abbrev pub to_int : ℕ → ℤ
to_int n = let m = n % 2 ^ 32 in if ltb m (2 ^ 31) then pos m else negsuc (2 ^ 32 - 1 - m)

module _ (w : World) where
  -- the body of the loop, once there is memory
  unfoldable pub describe : ℕ → SockInfo
  describe i = elim (w.getsockname (to_int (3 + i))) [
    | none ↦ record { fd = minus_one; port = w.fresh_port i }
    | some port ↦ record { fd = to_int (3 + i); port = port }
  ]

  abbrev pub also : SockInfo → Loaded → Loaded
  also info (ready infos) = ready (info ∷ infos)
  also info other = other

  -- the loop from round `i` on, for `left` more rounds
  unfoldable pub fill : ℕ → ℕ → Loaded
  unfolding describe
  fill i zero = ready []
  fill i (suc left) =
      let rest = fill (i + 1) left in if w.malloc_succeeds i then also (describe i) rest else exited

  -- what follows the call of `strtoul`
  abbrev pub allocate : ℕ → List ℕ → Loaded
  allocate count end =
      if not (is_empty end)
      then ready []
      else if not (w.calloc_succeeds count) && not (count == 0)
      then crashed
      else fill 0 count

  -- wrapper_init
  unfoldable pub wrapper_init : Loaded
  unfolding strtoul fill
  wrapper_init =
      if not w.dlopen_succeeds
      then exited
      else if not w.dlsym_succeeds
      then exited
      else (elim w.listen_fds [
        | none ↦ ready []
        | some buf ↦ let (count, end) = strtoul buf in allocate count end
      ])

pub data SocketCall : Type 0 where
  dup2 : ℤ → ℤ → SocketCall
  libc_bind : ℤ → ℕ → SocketCall

module _ (answer : SocketCall → ℤ) where
  -- the loop of `bind` over `s_info`, and what it calls
  unfoldable pub bind : List SockInfo → ℤ → ℕ → List SocketCall × ℤ
  bind [] s port = (libc_bind s port ∷ [], answer (libc_bind s port))
  bind (info ∷ infos) s port =
      let later = bind infos s port in
      if port == info.port
      then (dup2 info.fd s ∷ [], if is_negative (answer (dup2 info.fd s)) then minus_one else pos 0)
      else later

strtoul_two : strtoul (codes " 2") ≡ (2, [])
unfolding strtoul
strtoul_two = refl

strtoul_partly : strtoul (codes "2x") ≡ (2, b'x' ∷ [])
unfolding strtoul
strtoul_partly = refl
