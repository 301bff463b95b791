-- ===== src/Wrapper/Inherited.antt =====
-- Which socket a server of sa-wrapper/wrapper.c gets for a port.
use relaunchd.Prelude.{
  ℕ, zero, suc, ◌+◌, ◌-◌, ◌^◌, ◌≤◌, ◌<◌, ◌≡◌, ◌≢◌, refl, sym, ◌∙◌, ap, true, some, List, [], ◌∷◌,
  leb, arith, nat_eq, if◌then◌else◌,
}
use relaunchd.Prelude.Int.{ℤ, pos, minus_one, is_negative}
use relaunchd.Wrapper.{
  SockInfo, World, ready, describe, fill, to_int, wrapper_init, SocketCall, dup2, libc_bind, bind,
}
use relaunchd.Wrapper.Decimal.{decimal, strtoul-decimal}

-- launchd passed `n` sockets on, each of which is bound to a port
pub record Passes (w : World) (n : ℕ) : Type 0 where
  pub opened : w.dlopen_succeeds ≡ true
  pub resolved : w.dlsym_succeeds ≡ true
  pub announced : w.listen_fds ≡ some (decimal n)
  pub allocated : w.calloc_succeeds n ≡ true
  pub allocated_each : (i : ℕ) → i < n → w.malloc_succeeds i ≡ true
  -- the descriptors fit an `int`
  pub few : 3 + n ≤ 2 ^ 31
  pub bound : (i : ℕ) → i < n → (port : ℕ) × (w.getsockname (pos (3 + i)) ≡ some port)

-- what a call of `bind` does
abbrev pub Replaced : (SocketCall → ℤ) → List SockInfo → ℤ → ℕ → ℕ → Type 0
Replaced answer infos s port i = bind answer infos s port ≡ (
  dup2 (pos (3 + i)) s ∷ [],
  if is_negative (answer (dup2 (pos (3 + i)) s)) then minus_one else pos 0,
)

abbrev pub Ordinary : (SocketCall → ℤ) → List SockInfo → ℤ → ℕ → Type 0
Ordinary answer infos s port =
    bind answer infos s port ≡ (libc_bind s port ∷ [], answer (libc_bind s port))

-- The first passed socket with the port replaces the socket of the server; where there is none, the
-- server gets what it asked for.
pub record Serves (w : World) (n : ℕ) (answer : SocketCall → ℤ) (infos : List SockInfo)
    : Type 0 where
  pub passed :
      (s : ℤ) (port i : ℕ)
      → i < n
      → w.getsockname (pos (3 + i)) ≡ some port
      → ((j : ℕ) → j < i → w.getsockname (pos (3 + j)) ≢ some port)
      → Replaced answer infos s port i
  pub other :
      (s : ℤ) (port : ℕ)
      → ((i : ℕ) → i < n → w.getsockname (pos (3 + i)) ≢ some port)
      → Ordinary answer infos s port

to_int-small : (n : ℕ) → n < 2 ^ 31 → to_int n ≡ pos n
to_int-small n h = ground (arith, h)

module _ (w : World) where
  -- the entries from round `i` on
  infos_from : ℕ → ℕ → List SockInfo
  infos_from i zero = []
  infos_from i (suc left) = describe w i ∷ infos_from (i + 1) left

  fill-infos_from :
      (i left : ℕ)
      → ((k : ℕ) → k < i + left → w.malloc_succeeds k ≡ true)
      → fill w i left ≡ ready (infos_from i left)
  unfolding fill infos_from
  fill-infos_from i zero h = refl
  fill-infos_from i (suc left) h =
      let rest = fill-infos_from (i + 1) left (λ k lt. h k (omega (arith, lt))) in
      rw (h i (omega arith), rest) refl

  describe-bound :
      (i port : ℕ)
      → 3 + i < 2 ^ 31
      → w.getsockname (pos (3 + i)) ≡ some port
      → describe w i ≡ record { fd = pos (3 + i); port = port }
  unfolding describe
  describe-bound i port h e =
      let fd : to_int (3 + i) ≡ pos (3 + i) = to_int-small (3 + i) h in
      ground (arith, ap w.getsockname fd, fd, e)

  module _ (answer : SocketCall → ℤ) (n : ℕ) (p : Passes w n) where
    bind-other :
        (i left : ℕ) (s : ℤ) (port : ℕ)
        → i + left ≤ n
        → ((k : ℕ) → i ≤ k → k < i + left → w.getsockname (pos (3 + k)) ≢ some port)
        → Ordinary answer (infos_from i left) s port
    unfolding bind infos_from
    bind-other i zero s port h none_has = refl
    bind-other i (suc left) s port h none_has =
        let (own, e) = p.bound i (omega (arith, h)) in
        let d = describe-bound i own (omega (arith, h, p.few)) e in
        let later =
          bind-other (i + 1) left s port (omega (arith, h))
            (λ k a b. none_has k (omega (arith, a)) (omega (arith, b))) in
        let differs : own ≢ port =
          λ same. none_has i (omega arith) (omega arith) (e ∙ ap some same) in
        rw d (ground (arith, later, differs))

    bind-passed :
        (i left before k : ℕ) (s : ℤ) (port : ℕ)
        → i + before ≡ k
        → i + left ≤ n
        → before < left
        → w.getsockname (pos (3 + k)) ≡ some port
        → ((j : ℕ) → i ≤ j → j < k → w.getsockname (pos (3 + j)) ≢ some port)
        → Replaced answer (infos_from i left) s port k
    unfolding bind infos_from
    bind-passed i zero before k s port at h lt has first = absurd (omega (arith, lt))
    bind-passed i (suc left) zero k s port at h lt has first =
        let e : k ≡ i = omega (arith, at) in
        let d = describe-bound i port (omega (arith, h, p.few)) (rw (sym e) has) in
        rw (e, d) (ground arith)
    bind-passed i (suc left) (suc before) k s port at h lt has first =
        let (own, e) = p.bound i (omega (arith, h)) in
        let d = describe-bound i own (omega (arith, h, p.few)) e in
        let later =
          bind-passed (i + 1) left before k s port (omega (arith, at)) (omega (arith, h))
            (omega (arith, lt)) has (λ j a b. first j (omega (arith, a)) b) in
        let differs : own ≢ port =
          λ same. first i (omega arith) (omega (arith, at)) (e ∙ ap some same) in
        rw d (ground (arith, later, differs))

  init-infos_from : (n : ℕ) → Passes w n → wrapper_init w ≡ ready (infos_from 0 n)
  unfolding wrapper_init
  init-infos_from n p =
      let fits : leb n (2 ^ 64 - 1) ≡ true = ground (arith, p.few) in
      ground (
        arith,
        p.opened,
        p.resolved,
        p.announced,
        p.allocated,
        strtoul-decimal n fits,
        fill-infos_from 0 n (λ k lt. p.allocated_each k (omega (arith, lt))),
      )

  -- Where launchd passes some sockets on, at most as many as there are descriptors, says so in LISTEN_FDS,
  -- each of them is bound to a port and memory is there: the library is loaded, and then a server that
  -- binds a port gets the first passed socket with this port in place of its own, by one call of `dup2`,
  -- or binds as usual if no passed socket has this port. The answer is that of the call.
  pub wrapper_init-Serves :
      (answer : SocketCall → ℤ) (n : ℕ)
      → Passes w n
      → (infos : List SockInfo) × (wrapper_init w ≡ ready infos) × Serves w n answer infos
  wrapper_init-Serves answer n p = (
    infos_from 0 n,
    init-infos_from n p,
    record {
      passed = λ s port i lt has first.
          bind-passed answer n p 0 n i i s port (omega arith) (omega arith) lt has
            (λ j a b. first j b);
      other = λ s port h.
          bind-other answer n p 0 n s port (omega arith) (λ k a b. h k (omega (arith, b)));
    },
  )
