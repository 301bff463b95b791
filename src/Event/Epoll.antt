-- ===== src/Event/Epoll.antt =====
-- class EpollImplementation of src/event.h. The kernel's side enters as the answers of `EpollOs`,
-- which may depend on the number of calls so far; the interest lists of the epoll descriptors are part
-- of the state, as epoll(7) describes them: a descriptor is added once, and only one that was added
-- can be deleted.
pub mod Wait
pub mod Reaping
pub mod Open
pub mod TimerFd
use relaunchd.Prelude.{
  ℕ, zero, suc, Bool, true, false, Option, none, some, List, [], ◌∷◌, filter_by, not, ◌==◌, nat_eq,
  is_empty, if◌then◌else◌,
}
use relaunchd.Prelude.Assoc.{lookup, insert, erase}
use relaunchd.Prelude.Int.{ℤ, int_eq}
use relaunchd.Prelude.Exec.{
  Exec, Result, ok, err, pure, throw, gets, modify, ◌>>=◌, ◌>>◌, system_error, range_error,
  process_not_found, out_of_range, never_returned,
}
use relaunchd.Event.{
  Kernel, Event, WaitStatus, KernelEventInterface, add_pending_event, get_pending_event,
}
use relaunchd.Os.{Errno}

-- sets of numbers
unfoldable pub member : ℕ → List ℕ → Bool
member n [] = false
member n (x ∷ xs) = if x == n then true else member n xs

abbrev pub add : ℕ → List ℕ → List ℕ
add n xs = if member n xs then xs else n ∷ xs

unfoldable pub remove : ℕ → List ℕ → List ℕ
unfolding filter_by
remove n xs = filter_by (λ x. not (x == n)) xs

unfoldable pub watched : ℤ → List ℤ → Bool
watched n [] = false
watched n (x ∷ xs) = if x == n then true else watched n xs

unfoldable pub unwatch : ℤ → List ℤ → List ℤ
unfolding filter_by
unwatch n xs = filter_by (λ x. not (x == n)) xs

-- what the answers of the kernel look like
pub data SignalRead : Type 0 where
  signal : ℕ → SignalRead
  would_block read_failed : SignalRead

pub data Reaped : Type 0 where
  child : ℤ → WaitStatus → Reaped
  nothing no_child wait_failed : Reaped

pub data TimerRead : Type 0 where
  expired again timer_failed : TimerRead

-- `event.data` of the main descriptor
pub data Source : Type 0 where
  signals sockets timers unknown : Source

pub record EpollOs : Type 0 where
  pub kill_answer : ℕ → ℤ → Option Errno
  pub signalfd_fails : ℕ → Bool
  pub epoll_add_fails : ℕ → Bool
  -- `timerfd_create`: a new descriptor
  pub timerfd_create : ℕ → Option ℕ
  pub settime_fails : ℕ → Bool
  -- epoll_wait on each descriptor: `err`, no event, or its data
  pub main_wait : ℕ → Option ℕ → Result (Option Source)
  pub socket_wait : ℕ → Option ℕ → Result (Option ℕ)
  pub timer_wait : ℕ → Option ℕ → Result (Option ℕ)
  pub read_timer : ℕ → ℕ → TimerRead
  pub read_signal : ℕ → SignalRead
  pub wait_any : ℕ → Reaped
  -- more rounds than there are signals and children to read, and spurious wake-ups
  pub bound : ℕ

-- the members of the class, but for the descriptors
pub record Epoll : Type 0 where
  pub calls : ℕ
  pub watch_pids : List ℤ
  pub timerfd_map : List (ℕ × ℕ)
  pub sigmask : List ℕ
  pub cleanup_fds : List ℕ
  -- the interest lists of epfd, socket_read_fd and timer_epfd
  pub epfd_set : List ℕ
  pub socket_set : List ℕ
  pub timer_set : List ℕ

abbrev pub Method : Type 0 → Type 0
Method A = Exec (Kernel Epoll) A

abbrev pub update : (Epoll → Epoll) → Method Unit
update f k = (ok tt, record k { derived = f k.derived })

-- a call, and the number of calls after it
abbrev pub ask : {A : Type 0} → (ℕ → A) → Method A
ask answer k = (
  ok (answer k.derived.calls),
  record k { derived = record k.derived { calls = suc k.derived.calls } },
)

-- `if (call < 0) throw std::system_error`
abbrev pub demand : (ℕ → Bool) → Method Unit
demand fails = ask fails >>= λ f. elim f [ true ↦ throw system_error | false ↦ pure tt ]

abbrev pub when_in : Bool → Method Unit
when_in true = pure tt
when_in false = throw system_error

module _ (os : EpollOs) where
  unfoldable pub monitor_child_process : ℤ → Method Unit
  unfolding watched
  monitor_child_process pid = ask (λ n. os.kill_answer n pid) >>= λ answer. elim answer [
    | none ↦ update (λ e. record e {
      watch_pids = if watched pid e.watch_pids then e.watch_pids else pid ∷ e.watch_pids;
    })
    | some Errno.esrch ↦ throw process_not_found
    | some _ ↦ throw system_error
  ]

  unfoldable pub ignore_child_process : ℤ → Method Unit
  unfolding unwatch
  ignore_child_process pid = update (λ e. record e { watch_pids = unwatch pid e.watch_pids })

  -- `epoll_ctl(…, EPOLL_CTL_ADD, …)`
  unfoldable pub monitor_socket_read : ℕ → Method Unit
  unfolding member
  monitor_socket_read sockfd = do
    known ← gets (λ k. member sockfd k.derived.socket_set)
    when_in (not known)
    demand os.epoll_add_fails
    update (λ e. record e { socket_set = sockfd ∷ e.socket_set })

  -- `epoll_ctl(…, EPOLL_CTL_DEL, …)`
  unfoldable pub ignore_socket_read : ℕ → Method Unit
  unfolding member remove
  ignore_socket_read sockfd = do
    known ← gets (λ k. member sockfd k.derived.socket_set)
    when_in known
    update (λ e. record e { socket_set = remove sockfd e.socket_set })

  unfoldable pub monitor_signal : ℕ → Method Unit
  unfolding member
  monitor_signal signum = do
    update (λ e. record e { sigmask = add signum e.sigmask })
    demand os.signalfd_fails
    modify (λ k. record k { blocked_signals = add signum k.blocked_signals })

  unfoldable pub unblock_signal : ℕ → Method Unit
  unfolding remove
  unblock_signal signum =
      modify (λ k. record k { blocked_signals = remove signum k.blocked_signals })

  unfoldable pub unblock_all_signals : Method Unit
  unblock_all_signals = modify (λ k. record k { blocked_signals = [] })

  unfoldable pub ignore_signal : ℕ → Method Unit
  unfolding remove unblock_signal
  ignore_signal signum = do
    update (λ e. record e { sigmask = remove signum e.sigmask })
    demand os.signalfd_fails
    unblock_signal signum

  -- the descriptor is added to `timer_epfd`
  unfoldable pub monitor_timer : ℕ → ℕ → Method Unit
  unfolding member insert
  monitor_timer timer_id milliseconds = ask os.timerfd_create >>= λ created. elim created [
    | none ↦ throw system_error
    | some tfd ↦ (do
      update (λ e. record e { cleanup_fds = add tfd e.cleanup_fds })
      demand os.settime_fails
      known ← gets (λ k. member tfd k.derived.timer_set)
      when_in (not known)
      demand os.epoll_add_fails
      update (λ e. record e {
        timer_set = tfd ∷ e.timer_set;
        timerfd_map = insert timer_id tfd e.timerfd_map;
      }))
  ]

  -- The descriptor is deleted from `epfd`, the outcome is kept, and `close` removes the descriptor
  -- from every interest list.
  unfoldable pub ignore_timer : ℕ → Method Unit
  unfolding lookup erase member remove
  ignore_timer timer_id k = elim (lookup timer_id k.derived.timerfd_map) [
    | none ↦ (err out_of_range, k)
    | some tfd ↦
        (do
          known ← gets (λ k. member tfd k.derived.epfd_set)
          update (λ e. record e {
            epfd_set = remove tfd e.epfd_set;
            socket_set = remove tfd e.socket_set;
            timer_set = remove tfd e.timer_set;
            timerfd_map = erase timer_id e.timerfd_map;
            cleanup_fds = remove tfd e.cleanup_fds;
          })
          when_in known)
          k
  ]
