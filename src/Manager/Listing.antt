-- ===== src/Manager/Listing.antt =====
-- src/manager.cc: the list of the jobs for a client.
use Prim.Native.String.{◌++◌ as append}
use relaunchd.Prelude.{
  ◌≡◌, refl, ℕ, zero, suc, ◌/◌, ◌%◌, String, none, some, List, [], ◌∷◌, ltb, get_elem?, ◌==◌,
  if◌then◌else◌,
}
use relaunchd.Prelude.Exec.{Exec, Result, ok, err, pure, lift, gets, ◌>>=◌}
use relaunchd.Prelude.Int.{ℤ, pos, negsuc, int_eq}
use relaunchd.Manifest.{label_text}
use relaunchd.Job.{Job}
use relaunchd.Manager.{Manager, Daemon}

abbrev digit : ℕ → String
digit n =
    elim (get_elem? {A = String} ("0" ∷ "1" ∷ "2" ∷ "3" ∷ "4" ∷ "5" ∷ "6" ∷ "7" ∷ "8" ∷ "9" ∷ [])
      n) [ none ↦ "" | some d ↦ d ]

-- The digits of a number; a number has at most as many as itself and one more.
unfoldable digits_of : ℕ → ℕ → String
digits_of zero n = ""
digits_of (suc fuel) n =
    let rest = digits_of fuel (n / 10) in if ltb n 10 then digit n else append rest (digit (n % 10))

-- `std::to_string`
unfoldable pub to_string : ℤ → String
unfolding digits_of
to_string (pos n) = digits_of (suc n) n
to_string (negsuc n) = append "-" (digits_of (suc (suc n)) (suc n))

to_string_pid : to_string (pos 4072) ≡ "4072"
unfolding to_string digits_of
to_string_pid = refl

module _ {I J : Type 0} (d : Daemon I J) where
  open d use {platform}
  open platform use {json}

  -- the text for the process of a job
  abbrev pub pid_text : Job → String
  pid_text job = if job.pid == pos 0 then "-" else to_string job.pid

  abbrev pub row : Job → String → J
  row job label = json.of_object (
      ("Label", json.of_string label)
      ∷ ("PID", json.of_string (pid_text job))
      ∷ ("LastExitStatus", json.of_int job.last_exit_status)
      ∷ [])

  -- the loop of listJobs
  unfoldable pub rows : List (String × Job) → Result (List J)
  rows [] = ok []
  rows ((key, job) ∷ jobs) = elim (label_text job.manifest.label) [
    | err x ↦ err x
    | ok label ↦ elim (rows jobs) [ ok rest ↦ ok (row job label ∷ rest) | err x ↦ err x ]
  ]

  -- Manager::listJobs
  unfoldable pub list_jobs : Exec (Manager I J) J
  unfolding rows to_string
  list_jobs = do jobs ← gets (λ s. s.jobs); entries ← lift (rows jobs); pure (json.of_array entries)
