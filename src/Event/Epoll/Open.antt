-- ===== src/Event/Epoll/Open.antt =====
-- The constructor and the destructor of class EpollImplementation in src/event.h.
use relaunchd.Prelude.{ℕ, not, Option, none, some, List, [], ◌∷◌, nat_eq}
use relaunchd.Prelude.Exec.{pure, throw, gets, ◌>>=◌, ◌>>◌, system_error}
use relaunchd.Event.{Kernel}
use relaunchd.Event.Epoll.{
  Epoll, EpollOs, Method, ask, update, demand, when_in, member, add, monitor_signal,
  unblock_all_signals,
}
use relaunchd.Event.Epoll.Wait.{sigchld}

-- the descriptors of the system: `none` where the call fails
pub record Descriptors : Type 0 where
  pub epoll_create : ℕ → Option ℕ
  pub signalfd : ℕ → Option ℕ

abbrev pub closed : Kernel Epoll
closed = record {
  child_status = [];
  blocked_signals = [];
  pending_events = [];
  derived = record {
    calls = 0;
    watch_pids = [];
    timerfd_map = [];
    sigmask = [];
    cleanup_fds = [];
    epfd_set = [];
    socket_set = [];
    timer_set = [];
  };
}

-- a new descriptor, which the destructor closes
abbrev opened_by : (ℕ → Option ℕ) → Method ℕ
opened_by answer = ask answer >>= λ created. elim created [
  | none ↦ throw system_error
  | some fd ↦ update (λ e. record e { cleanup_fds = add fd e.cleanup_fds }) >> pure fd
]

module _ (os : EpollOs) (descriptors : Descriptors) where
  -- epollAdd
  unfoldable pub epoll_add : ℕ → Method Unit
  unfolding member
  epoll_add fd = do
    known ← gets (λ k. member fd k.derived.epfd_set)
    when_in (not known)
    demand os.epoll_add_fails
    update (λ e. record e { epfd_set = fd ∷ e.epfd_set })

  -- EpollImplementation::EpollImplementation
  unfoldable pub open_epoll : Method Unit
  unfolding epoll_add monitor_signal
  open_epoll = do
    opened_by descriptors.epoll_create
    sigfd ← opened_by descriptors.signalfd
    epoll_add sigfd
    monitor_signal os sigchld
    socket_read_fd ← opened_by descriptors.epoll_create
    epoll_add socket_read_fd
    timer_epfd ← opened_by descriptors.epoll_create
    epoll_add timer_epfd

  -- EpollImplementation::~EpollImplementation, with the descriptors that it closes
  unfoldable pub close_epoll : Method (List ℕ)
  unfolding unblock_all_signals
  close_epoll = gets (λ k. k.derived.cleanup_fds) >>= λ fds. unblock_all_signals os >> pure fds
