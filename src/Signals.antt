-- ===== src/Signals.antt =====
-- src/signal_names.h: signal names and numbers, as on Linux (x86). The keys of the table are
-- compared as texts; `stoi` accepts any text that starts with a number.
use relaunchd.Prelude.{
  ℕ, ◌≡◌, refl, Bool, true, false, ◌&&◌, Option, none, some, List, [], ◌∷◌, ◌++◌, map, arith, ◌==◌,
  nat_eq, if◌then◌else◌,
}
use relaunchd.Prelude.Exec.{ok, err}
use relaunchd.Prelude.Int.{pos, negsuc}
use relaunchd.Prelude.Text.{codes, to_upper, stoi}

unfoldable pub codes_beq : List ℕ → List ℕ → Bool
codes_beq [] [] = true
codes_beq (a ∷ as') (b ∷ bs) = a == b && codes_beq as' bs
codes_beq _ _ = false

-- `s.find("SIG") == 0`
unfoldable pub has_sig : List ℕ → Bool
has_sig (a ∷ b ∷ c ∷ rest) = a == b'S' && b == b'I' && c == b'G'
has_sig _ = false

abbrev pub sig : List ℕ
sig = b'S' ∷ b'I' ∷ b'G' ∷ []

abbrev pub signals_by_name : List (List ℕ × ℕ)
signals_by_name =
    (codes "SIGABRT", 6)
    ∷ (codes "SIGALRM", 14)
    ∷ (codes "SIGBUS", 7)
    ∷ (codes "SIGCHLD", 17)
    ∷ (codes "SIGCONT", 18)
    ∷ (codes "SIGFPE", 8)
    ∷ (codes "SIGHUP", 1)
    ∷ (codes "SIGILL", 4)
    ∷ (codes "SIGINT", 2)
    ∷ (codes "SIGKILL", 9)
    ∷ (codes "SIGPIPE", 13)
    ∷ (codes "SIGPROF", 27)
    ∷ (codes "SIGQUIT", 3)
    ∷ (codes "SIGSEGV", 11)
    ∷ (codes "SIGSTOP", 19)
    ∷ (codes "SIGTSTP", 20)
    ∷ (codes "SIGSYS", 31)
    ∷ (codes "SIGTERM", 15)
    ∷ (codes "SIGTRAP", 5)
    ∷ (codes "SIGTTIN", 21)
    ∷ (codes "SIGTTOU", 22)
    ∷ (codes "SIGURG", 23)
    ∷ (codes "SIGUSR1", 10)
    ∷ (codes "SIGUSR2", 12)
    ∷ (codes "SIGVTALRM", 26)
    ∷ (codes "SIGXCPU", 24)
    ∷ (codes "SIGXFSZ", 25)
    ∷ (codes "SIGPOLL", 29)
    ∷ (codes "SIGIO", 29)
    ∷ (codes "SIGIOT", 6)
    ∷ (codes "SIGSTKFLT", 16)
    ∷ (codes "SIGWINCH", 28)
    ∷ []

unfoldable pub find_signal : List ℕ → List (List ℕ × ℕ) → Option ℕ
unfolding codes_beq
find_signal s [] = none
find_signal s ((name, n) ∷ rest) =
    let later = find_signal s rest in if codes_beq name s then some n else later

-- the `catch` block
unfoldable pub by_name : List ℕ → Option ℕ
unfolding find_signal to_upper has_sig
by_name s =
    let buf = map to_upper s in
    find_signal (if has_sig buf then buf else sig ++ buf) signals_by_name

unfoldable pub get_signal_by_name : List ℕ → Option ℕ
unfolding by_name stoi
get_signal_by_name s = elim (stoi s) [
  | ok (pos n) ↦ some n
  | ok (negsuc n) ↦ none
  | err x ↦ by_name s
]

to_upper_idem : (c : ℕ) → to_upper (to_upper c) ≡ to_upper c
unfolding to_upper
to_upper_idem c = ground arith

map-to_upper_idem : (s : List ℕ) → map to_upper (map to_upper s) ≡ map to_upper s
map-to_upper_idem [] = refl
map-to_upper_idem (c ∷ s) = cc (to_upper_idem c, map-to_upper_idem s)

-- A name is looked up without regard to case.
pub by_name-to_upper : (s : List ℕ) → by_name (map to_upper s) ≡ by_name s
unfolding by_name
by_name-to_upper s = simp map-to_upper_idem

term_by_name : get_signal_by_name (codes "term") ≡ some 15
unfolding get_signal_by_name
term_by_name = refl
