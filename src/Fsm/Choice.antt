-- ===== src/Fsm/Choice.antt =====
-- `execute` of src/fsm.h, where the guards read the object and do not change it, as the comments
-- there ask: which transition is taken, and what the status says where none is.
use relaunchd.Prelude.{
  ◌≡◌, refl, Bool, false, ◌&&◌, ◌||◌, Option, none, some, List, [], ◌∷◌, ◌++◌, All, arith,
  filter_by, if◌then◌else◌, sym, ◌∙◌,
}
use relaunchd.Prelude.Exec.{Exec, ok, pure, ◌>>◌}
use relaunchd.Fsm.{FsmStatus, Trans, Machine, from, check, act, scan, execute}

module _ {State Trigger S : Type 0} (m : Machine State Trigger S) where
  abbrev Table : Type 0
  Table = List (Trans State Trigger S)

  -- the transition is for the current state of `s` and the trigger `t`
  abbrev matches : Trigger → S → Trans State Trigger S → Bool
  matches t s tr = m.same_state tr.from_state (m.get s) && m.same_trigger t tr.trigger

  -- the first transition of a table that passes a test
  unfoldable pub first : (Trans State Trigger S → Bool) → Table → Option (Trans State Trigger S)
  first test [] = none
  first test (tr ∷ rest) = let later = first test rest in if test tr then some tr else later

  unfoldable pub any : (Trans State Trigger S → Bool) → Table → Bool
  any test [] = false
  any test (tr ∷ rest) = test tr || any test rest

  -- the action, then the new state
  abbrev pub take : Trans State Trigger S → Exec S FsmStatus
  take tr = act tr.action >> (λ s. pure FsmStatus.success (m.set tr.to_state s))

  -- a transition if there is one, else a status
  abbrev pub conclude : Option (Trans State Trigger S) → FsmStatus → Exec S FsmStatus
  conclude (some tr) code = take tr
  conclude none code = pure code

  -- what `execute` promises, given the values of the guards
  unfoldable pub choice : (Trans State Trigger S → Bool) → Table → Trigger → Exec S FsmStatus
  unfolding first any
  choice holds table t s =
      conclude (first (λ tr. matches t s tr && holds tr) table)
        (if any (matches t s) table
          then FsmStatus.blocked_by_guard
          else FsmStatus.no_matching_trigger)
        s

  -- in `s` the guards of the table read the values that `holds` gives
  abbrev pub Reads : (Trans State Trigger S → Bool) → S → Table → Type 0
  Reads holds s table = All (λ tr. check tr.guard s ≡ (ok (holds tr), s)) table

  scan-choice :
      (holds : Trans State Trigger S → Bool) (table : Table) (t : Trigger) (s : S)
      (code : FsmStatus)
      → Reads holds s table
      → scan m.same_trigger m.set t code (from m.same_state (m.get s) table) s
        ≡ conclude
            (first (λ tr. matches t s tr && holds tr) table)
            (if any (matches t s) table then FsmStatus.blocked_by_guard else code)
            s
  unfolding scan from first any filter_by
  scan-choice holds [] t s code r = refl
  scan-choice holds (tr ∷ rest) t s code r = ground (
    arith,
    r.0,
    scan-choice holds rest t s code r.1,
    scan-choice holds rest t s FsmStatus.blocked_by_guard r.1,
  )

  -- Where the guards read the object and do not change it, `execute` takes the first transition, in
  -- the order of the table, that is for the current state and the trigger and whose guard holds: it
  -- runs the action, then sets the new state unless the action throws, and returns Success. If there is none, nothing
  -- changes, and the status says whether a guard was in the way.
  pub execute-choice :
      (holds : Trans State Trigger S → Bool) (table : Table) (t : Trigger) (s : S)
      → Reads holds s table
      → execute m table t s ≡ choice holds table t s
  unfolding execute choice
  execute-choice holds table t s r = scan-choice holds table t s FsmStatus.no_matching_trigger r

  first-swap :
      (test : Trans State Trigger S → Bool) (xs ys : Table) (a b : Trans State Trigger S)
      → (test a && test b) ≡ false
      → first test (xs ++ a ∷ b ∷ ys) ≡ first test (xs ++ b ∷ a ∷ ys)
  unfolding first
  first-swap test [] ys a b h = ground arith
  first-swap test (x ∷ xs) ys a b h = ground (arith, first-swap test xs ys a b h)

  any-swap :
      (test : Trans State Trigger S → Bool) (xs ys : Table) (a b : Trans State Trigger S)
      → any test (xs ++ a ∷ b ∷ ys) ≡ any test (xs ++ b ∷ a ∷ ys)
  unfolding any
  any-swap test [] ys a b = ground arith
  any-swap test (x ∷ xs) ys a b = ground (arith, any-swap test xs ys a b)

  Reads-swap :
      (holds : Trans State Trigger S → Bool) (s : S) (xs ys : Table) (a b : Trans State Trigger S)
      → Reads holds s (xs ++ a ∷ b ∷ ys)
      → Reads holds s (xs ++ b ∷ a ∷ ys)
  Reads-swap holds s [] ys a b (p, r) = (r.0, (p, r.1))
  Reads-swap holds s (x ∷ xs) ys a b (p, r) = (p, Reads-swap holds s xs ys a b r)

  choice-swap :
      (holds : Trans State Trigger S → Bool) (xs ys : Table) (a b : Trans State Trigger S)
      (t : Trigger) (s : S)
      → let test : Trans State Trigger S → Bool = λ tr. matches t s tr && holds tr in
        first test (xs ++ a ∷ b ∷ ys) ≡ first test (xs ++ b ∷ a ∷ ys)
        → choice holds (xs ++ a ∷ b ∷ ys) t s ≡ choice holds (xs ++ b ∷ a ∷ ys) t s
  unfolding choice
  choice-swap holds xs ys a b t s e = rw (e, any-swap (matches t s) xs ys a b) refl

  -- Where the guards read the object and do not change it, two neighbours of the table whose guards
  -- do not both hold may change places: `execute` does the same.
  pub execute-swap :
      (holds : Trans State Trigger S → Bool) (xs ys : Table) (a b : Trans State Trigger S)
      (t : Trigger) (s : S)
      → Reads holds s (xs ++ a ∷ b ∷ ys)
      → (holds a && holds b) ≡ false
      → execute m (xs ++ a ∷ b ∷ ys) t s ≡ execute m (xs ++ b ∷ a ∷ ys) t s
  execute-swap holds xs ys a b t s r h =
      let l = execute-choice holds (xs ++ a ∷ b ∷ ys) t s r in
      let q = execute-choice holds (xs ++ b ∷ a ∷ ys) t s (Reads-swap holds s xs ys a b r) in
      let one = first-swap (λ tr. matches t s tr && holds tr) xs ys a b (ground arith) in
      l ∙ choice-swap holds xs ys a b t s one ∙ sym q
