-- ===== src/Program/Launchd.antt =====
-- src/launchd.cc: the start and the end of the daemon. What the calls of the system answer is a
-- parameter, as is the order in which getopt reports the options.
pub mod Finished
pub mod Consistent
use relaunchd.Prelude.{
  Option, ℕ, ◌%◌, ◌/◌, String, Bool, true, false, ◌&&◌, List, [], ◌∷◌, ◌==◌, nat_eq, if◌then◌else◌,
}
use relaunchd.Prelude.Exec.{Exec, Result, Error, ok, err}
use relaunchd.Prelude.Int.{ℤ, pos, negsuc, int_eq, is_negative}
use relaunchd.Channel.{new_channel}
use relaunchd.Domain.{Environment}
use relaunchd.Event.{EventManager}
use relaunchd.Net.{Calls}
use relaunchd.StateFile.{FileSystem}
use relaunchd.StateFile.Location.{Directory, create_or_open_state_file}
use relaunchd.Manager.{Manager, ManagerTrigger, Daemon}
use relaunchd.Manager.Machine.{fire, new_manager, destroy}
use relaunchd.Manager.Loop.{run_main_loop}

pub data HostCall : Type 0 where
  run_script chdir open_file : String → HostCall
  fork subreaper freopen_log : HostCall
  dup2 : ℤ → ℤ → HostCall
  close : ℤ → HostCall

-- how the process ends: `return`, `exit` or `_exit`, `abort`, or an exception that leaves `main`
pub data Ending : Type 0 where
  returned exited : ℕ → Ending
  aborted : Ending
  threw : Error → Ending

pub data Progress (A : Type 0) : Type 0 where
  going : A → Progress A
  ended : Ending → Progress A

-- the calls so far, newest first, and the manager
pub record Process (I J : Type 0) : Type 0 where
  pub host_calls : List HostCall
  pub manager : Result (Manager I J)

pub record Options : Type 0 where
  pub daemonize : Bool
  pub boot_manager : Bool

abbrev pub no_flags : Options
no_flags = record { daemonize = false; boot_manager = false }

abbrev read_flag : ℕ → Options → Options
read_flag c o =
    if c == b'b'
    then record o { boot_manager = true }
    else if c == b'd'
    then record o { daemonize = true }
    else o

-- the loop over the options
unfoldable pub read_flags : List ℕ → Options → Options
read_flags [] o = o
read_flags (c ∷ cs) o = read_flags cs (read_flag c o)

-- `system` did not fail, and WIFEXITED and WEXITSTATUS say that the script returned 0
abbrev exited_well : ℤ → Bool
exited_well (pos status) = status % 128 == 0 && status / 256 % 256 == 0
exited_well (negsuc n) = false

-- a step of the process, which may end it
abbrev pub Step : Type 0 → Type 0 → Type 0
Step S A = S → Progress A × S

module _ {S A : Type 0} where
  abbrev ready : A → Step S A
  ready a p = (going a, p)

  abbrev pub stop : Ending → Step S A
  stop ending p = (ended ending, p)

abbrev settled : {A : Type 0} → Result A → Progress A
settled (ok a) = going a
settled (err x) = ended (threw x)

module _ {S A B : Type 0} where
  abbrev pub resume : Progress A → (A → Step S B) → Step S B
  resume (going a) f p = f a p
  resume (ended ending) f p = (ended ending, p)

  infixl 10 ◌>>=◌ ◌>>◌
  abbrev pub ◌>>=◌ : Step S A → (A → Step S B) → Step S B
  ◌>>=◌ m f p = let (r, q) = m p in resume r f q

  abbrev pub ◌>>◌ : Step S A → Step S B → Step S B
  m >> n = m >>= λ _. n

-- a method of the manager; its exceptions are not caught
abbrev pub in_manager : {I J A : Type 0} → Exec (Manager I J) A → Step (Process I J) A
in_manager m p = elim p.manager [
  | err x ↦ (ended (threw x), p)
  | ok s ↦ let (r, t) = m s in (settled r, record p { manager = ok t })
]

module _ {I J : Type 0} (answer : List HostCall → HostCall → ℤ) where
  abbrev host : HostCall → Step (Process I J) ℤ
  host c p = (going (answer p.host_calls c), record p { host_calls = c ∷ p.host_calls })

  -- become_a_subreaper on Linux: a failure is only logged
  unfoldable pub become_a_subreaper : Step (Process I J) Unit
  become_a_subreaper = host subreaper >> ready tt

  -- a round of the loop of double_fork: the parent ends, the child goes on
  unfoldable pub fork_once : Step (Process I J) Unit
  fork_once = host fork >>= λ child.
      if child == pos 0
      then ready tt
      else if child == negsuc 0
      then stop aborted
      else stop (exited 0)

  -- double_fork
  unfoldable pub double_fork : Step (Process I J) Unit
  unfolding fork_once
  double_fork = fork_once >> fork_once

  -- the descriptor to copy: the first process moves it to 3
  unfoldable pub null_descriptor : ℕ → ℤ → Step (Process I J) ℤ
  null_descriptor pid fd =
      if pid == 1 then (host (dup2 fd (pos 3)) >> (host (close fd) >> ready (pos 3))) else ready fd

  -- redirect_stdio
  unfoldable pub redirect_stdio : ℕ → Step (Process I J) Unit
  unfolding null_descriptor
  redirect_stdio pid = host (open_file "/dev/null") >>= λ opened.
      if is_negative opened then stop aborted else (do
        fd ← null_descriptor pid opened
        host (dup2 fd (pos 0))
        host (dup2 fd (pos 1))
        host (dup2 fd (pos 2))
        host (close fd)
        ready tt)

  -- run_boot_script, and `err(1, ...)` where it returns false
  unfoldable pub run_boot_script : Bool → String → Step (Process I J) Unit
  run_boot_script false path = ready tt
  run_boot_script true path =
      host (run_script path) >>= λ status. if exited_well status then ready tt else stop (exited 1)

  -- `if (daemonize)`
  unfoldable pub detach : Bool → ℕ → Step (Process I J) Unit
  unfolding double_fork redirect_stdio
  detach false pid = host freopen_log >> ready tt
  detach true pid = do
    rv ← host (chdir "/")
    if rv == pos 0 then ready tt else stop aborted
    if pid == 1 then ready tt else double_fork
    redirect_stdio pid

  -- launchd_main, from the options on; the main loop on fuel
  unfoldable pub launchd_main : Daemon I J → ℕ → ℕ → List ℕ → Step (Process I J) Unit
  unfolding read_flags run_boot_script detach become_a_subreaper fire run_main_loop destroy
  launchd_main d fuel pid flags =
      let o = read_flags flags no_flags in
      do
        run_boot_script o.boot_manager "/lib/relaunchd/bootstrap"
        detach o.daemonize pid
        become_a_subreaper
        in_manager (fire d ManagerTrigger.start_requested)
        in_manager (run_main_loop d fuel)
        run_boot_script o.boot_manager "/lib/relaunchd/bootout"
        in_manager (destroy d)
        stop (returned 0)

-- Manager::Manager with its members: the event manager, the channel and the state file
unfoldable pub open_manager :
    {I J : Type 0}
    → Daemon I J
    → EventManager I
    → Environment
    → Directory
    → FileSystem J
    → Option (FileSystem J)
    → Calls
    → Result (Manager I J)
unfolding new_channel create_or_open_state_file new_manager
open_manager d e env dir fs failure calls = elim (new_channel d.net calls).0 [
  | err x ↦ err x
  | ok chan ↦ elim (create_or_open_state_file d.platform.json env dir fs failure d.domain) [
    | err x ↦ err x
    | ok file ↦ ok (new_manager d e chan file)
  ]
]
