-- ===== src/Program.antt =====
-- src/main.cc and src/launchctl.cc: the one program that is the daemon or its client, by its name.
pub mod Name
pub mod Launchd
use relaunchd.Prelude.{
  ℕ, ◌-◌, String, Bool, true, false, not, ◌&&◌, ◌||◌, Option, none, some, List, [], ◌∷◌, length,
  leb, nat_beq, ◌==◌, if◌then◌else◌,
}
use relaunchd.Prelude.Exec.{Result, ok, err, is_exception}
use relaunchd.Prelude.Text.{codes}
use relaunchd.Domain.{BuildConfig, Environment, Domain, new_domain, rpc_sock}
use relaunchd.Net.{Calls}
use relaunchd.Rpc.Client.{ClientLib, Invoked, method_exists, invoke_method}

-- `std::string::operator==` and `substr` on code points
unfoldable pub same : List ℕ → List ℕ → Bool
same [] [] = true
same [] (d ∷ ds) = false
same (c ∷ cs) [] = false
same (c ∷ cs) (d ∷ ds) = nat_beq c d && same cs ds

unfoldable pub drop : ℕ → List ℕ → List ℕ
drop n [] = []
drop n (c ∷ cs) = let rest = drop (n - 1) cs in if nat_beq n 0 then c ∷ cs else rest

-- ends_with
unfoldable pub ends_with : List ℕ → List ℕ → Bool
unfolding same drop
ends_with path tail =
    if leb (length tail) (length path)
    then same (drop (length path - length tail) path) tail
    else false

pub data Program : Type 0 where
  launchd launchctl : Program
  -- `exit(128)`
  unhandled : Program

-- main, by argv[0]
unfoldable pub program_of : String → Program
unfolding ends_with
program_of path =
    if ends_with (codes path) (codes "launchd")
    then launchd
    else if ends_with (codes path) (codes "launchctl")
    then launchctl
    else unhandled

unfoldable pub starts_with : List ℕ → List ℕ → Bool
starts_with [] cs = true
starts_with (d ∷ ds) [] = false
starts_with (d ∷ ds) (c ∷ cs) = nat_beq d c && starts_with ds cs

-- `s.rfind(part) != npos`
unfoldable pub has_part : List ℕ → List ℕ → Bool
unfolding starts_with
has_part part [] = starts_with part []
has_part part (c ∷ cs) = starts_with part (c ∷ cs) || has_part part cs

module _ {J : Type 0} (c : ClientLib J) (config : BuildConfig) (env : Environment) where
  -- the `try` of launchctl_main: an exception of the domain or of the method is EXIT_FAILURE
  abbrev exit_code : Result (Unit {0}) → Result ℕ
  exit_code (ok done) = ok 0
  exit_code (err x) = if is_exception x then ok 1 else err x

  unfoldable pub run_method : String → List String → Calls → Result ℕ × Invoked
  unfolding new_domain invoke_method
  run_method method args calls = elim (new_domain config env none none) [
    | err x ↦ (exit_code (err x), record { calls = calls; printed = [] })
    | ok domain ↦
        let (r, after) = invoke_method c (rpc_sock domain) method args calls in (exit_code r, after)
  ]

  abbrev nothing_sent : ℕ → Calls → Result ℕ × Invoked
  nothing_sent code calls = (ok code, record { calls = calls; printed = [] })

  -- launchctl_main, from argv[1] on
  unfoldable pub launchctl_main : List String → Calls → Result ℕ × Invoked
  unfolding has_part run_method method_exists
  launchctl_main [] calls = nothing_sent 1 calls
  launchctl_main (method ∷ []) calls =
      if has_part (codes "help") (codes method)
      then nothing_sent 0 calls
      else if not (method_exists c method)
      then nothing_sent 1 calls
      else run_method method [] calls
  launchctl_main (method ∷ arg ∷ args) calls =
      if not (method_exists c method)
      then nothing_sent 1 calls
      else run_method method (arg ∷ args) calls
