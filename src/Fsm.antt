-- ===== src/Fsm.antt =====
-- src/fsm.h: the state machine engine. A machine lives inside an object of type `S`: `get` and
-- `set` read and write its current state `m_cs` there, so that guards and actions, which are
-- closures over the object, are methods `Exec S`.
pub mod Choice
use relaunchd.Prelude.{
  ◌≡◌, Bool, true, false, not, Option, none, some, List, [], ◌∷◌, ◌++◌, filter_by,
}
use relaunchd.Prelude.Exec.{Exec, pure, ◌>>=◌, ◌>>◌}

pub data FsmStatus : Type 0 where
  success no_matching_trigger blocked_by_guard : FsmStatus

-- An empty `std::function` is `none`.
pub record Trans (State Trigger S : Type 0) : Type 0 where
  pub from_state : State
  pub to_state : State
  pub trigger : Trigger
  pub guard : Option (Exec S Bool)
  pub action : Option (Exec S Unit)

module _ {S : Type 0} where
  abbrev pub check : Option (Exec S Bool) → Exec S Bool
  check none = pure true
  check (some guard) = guard

  abbrev pub act : Option (Exec S Unit) → Exec S Unit
  act none = pure tt
  act (some action) = action

module _ {State Trigger S : Type 0} where
  -- `m_transitions[s]` after `add_transitions`: the transitions from `s`, in the order they came.
  -- A state with no transition has no entry, which `execute` treats as it treats an empty vector.
  unfoldable pub from :
      (State → State → Bool) → State → List (Trans State Trigger S) → List (Trans State Trigger S)
  unfolding filter_by
  from same s table = filter_by (λ tr. same tr.from_state s) table

  -- The loop of `execute`. What follows a failed test is bound before the test, and waits.
  unfoldable pub scan :
      (Trigger → Trigger → Bool)
      → (State → S → S)
      → Trigger
      → FsmStatus
      → List (Trans State Trigger S)
      → Exec S FsmStatus
  scan same set t code [] = pure code
  scan same set t code (tr ∷ rest) = elim (same t tr.trigger) [
    | false ↦ scan same set t code rest
    | true ↦
        let blocked = scan same set t FsmStatus.blocked_by_guard rest in
        let taken : Exec S FsmStatus =
          act tr.action >> (λ s. pure FsmStatus.success (set tr.to_state s)) in
        check tr.guard >>= λ holds. elim holds [ true ↦ taken | false ↦ blocked ]
  ]

-- What a machine with states `State` and triggers `Trigger` inside an `S` is made of.
pub record Machine (State Trigger S : Type 0) : Type 0 where
  pub same_state : State → State → Bool
  pub same_trigger : Trigger → Trigger → Bool
  pub get : S → State
  pub set : State → S → S

module _ {State Trigger S : Type 0} (m : Machine State Trigger S) where
  unfoldable pub execute : List (Trans State Trigger S) → Trigger → Exec S FsmStatus
  unfolding from scan
  execute table t s =
      scan m.same_trigger m.set t FsmStatus.no_matching_trigger (from m.same_state (m.get s) table)
        s

  -- `reset(s)`
  abbrev pub reset : State → S → S
  reset = m.set
