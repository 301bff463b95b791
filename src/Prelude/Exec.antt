-- ===== src/Prelude/Exec.antt =====
-- Methods that mutate an object and may throw. What was written before a throw stays written, so
-- the state comes back beside the exception too.
pub mod Preserves
use mathlib.Core.Path.{◌≡◌, refl}
use mathlib.Core.Bool.{Bool, true, false}

-- The exceptions that the program throws or lets through. `assertion_failed` is a failed
-- `assert`, `undefined_behaviour` a step that C++ leaves undefined, and `never_returned` a loop that
-- goes on past the bound that the model gives it, `terminated` an exception that left a `noexcept`
-- function: none of these can be caught.
pub data Error : Type 0 where
  logic_error runtime_error range_error out_of_range system_error type_error bad_optional_access :
      Error
  parse_error invalid_argument not_supported invalid_manifest process_not_found : Error
  assertion_failed undefined_behaviour never_returned terminated : Error

pub data Result {ℓ} (A : Type ℓ) : Type ℓ where
  ok : A → Result A
  err : Error → Result A

abbrev pub Exec {ℓ} : Type ℓ → Type ℓ → Type ℓ
Exec S A = S → Result A × S

module _ {ℓ} {S A : Type ℓ} where
  abbrev pub pure : A → Exec S A
  pure a s = (ok a, s)

  abbrev pub throw : Error → Exec S A
  throw x s = (err x, s)

  abbrev pub lift : Result A → Exec S A
  lift r s = (r, s)

  abbrev pub gets : (S → A) → Exec S A
  gets f s = (ok (f s), s)

module _ {ℓ} {S A B : Type ℓ} where
  abbrev pub continue : Result A → (A → Exec S B) → Exec S B
  continue (ok a) f s = f a s
  continue (err x) f s = (err x, s)

  infixl 10 ◌>>=◌ ◌>>◌
  abbrev pub ◌>>=◌ : Exec S A → (A → Exec S B) → Exec S B
  ◌>>=◌ m f s = let (r, s') = m s in continue r f s'

  abbrev pub ◌>>◌ : Exec S A → Exec S B → Exec S B
  m >> n = m >>= λ _. n

-- a `noexcept` function
abbrev pub noexcept {ℓ} : {S A : Type ℓ} → Exec S A → Exec S A
noexcept m s = let (r, s') = m s in (elim r [ ok a ↦ ok a | err x ↦ err terminated ], s')

abbrev pub modify : {S : Type 0} → (S → S) → Exec S Unit
modify f s = (ok tt, f s)

-- `catch (const std::exception &)` stops the exceptions proper.
abbrev pub is_exception : Error → Bool
is_exception assertion_failed = false
is_exception undefined_behaviour = false
is_exception never_returned = false
is_exception terminated = false
is_exception _ = true

pub ok_injective {ℓ} : {A : Type ℓ} {a b : A} → ok a ≡ ok b → a ≡ b
ok_injective h = cc

-- To split on a computed result and keep the equation.
pub data Outcome {ℓ} {A : Type ℓ} (r : Result A) : Type ℓ where
  returned : (a : A) → r ≡ ok a → Outcome r
  threw : (x : Error) → r ≡ err x → Outcome r

pub outcome {ℓ} : {A : Type ℓ} (r : Result A) → Outcome r
outcome (ok a) = returned a refl
outcome (err x) = threw x refl
