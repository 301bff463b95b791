-- ===== src/Prelude/Throw.antt =====
-- Chains of fallible steps that keep no state: the `do` blocks of the readers.
use mathlib.Core.Bool.{Bool, true, false}
use mathlib.Core.Path.{◌≡◌, refl}
use relaunchd.Prelude.Exec.{Error, Result, ok, err}

module _ {ℓ κ} {A : Type ℓ} {B : Type κ} where
  infixl 10 ◌>>=◌ ◌>>◌
  abbrev pub ◌>>=◌ : Result A → (A → Result B) → Result B
  r >>= next = elim r [ ok a ↦ next a | err x ↦ err x ]

  abbrev pub ◌>>◌ : Result A → Result B → Result B
  r >> next = r >>= λ _. next

  -- A chain that returned was a first step that returned and a rest that did.
  pub >>=-eq-ok :
      (r : Result A) (next : A → Result B) {b : B}
      → (r >>= next) ≡ ok b
      → (a : A) × (r ≡ ok a) × (next a ≡ ok b)
  >>=-eq-ok (ok a) next h = (a, refl, h)
  >>=-eq-ok (err x) next h = cc

-- `if (b) throw x;`
abbrev pub throw_if : Bool → Error → Result (Unit {0})
throw_if true x = err x
throw_if false x = ok tt
