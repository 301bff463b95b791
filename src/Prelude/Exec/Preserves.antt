-- ===== src/Prelude/Exec/Preserves.antt =====
-- Methods that leave a property of their object true, also where they throw: a rule for each way in
-- which the program composes its methods.
use mathlib.Core.Bool.{Bool, true, false}
use mathlib.Core.Option.{Option, none, some}
use mathlib.Core.Path.{◌≡◌, refl}
use relaunchd.Prelude.Tests.{if◌then◌else◌}
use relaunchd.Prelude.Exec.{Exec, Error, Result, ok, err, lift, noexcept, continue, ◌>>=◌}

pub record Preserves {ℓ} {S A : Type ℓ} (P : S → Type ℓ) (m : Exec S A) : Type ℓ where
  pub holds : (s : S) → P s → P (m s).1

module _ {ℓ} {S A : Type ℓ} {P : S → Type ℓ} where
  -- a method that reads the object, or that throws without a write
  pub Preserves-read : (f : S → Result A) → Preserves P (λ s. (f s, s))
  Preserves-read f = record { holds = λ _ p. p }

  pub Preserves-elim :
      (b : Bool) (m n : Exec S A)
      → (b ≡ true → Preserves P m)
      → (b ≡ false → Preserves P n)
      → Preserves P (if b then m else n)
  Preserves-elim true m n p q = p refl
  Preserves-elim false m n p q = q refl

  pub Preserves-test :
      (b : S → Bool) (m n : Exec S A)
      → Preserves P m
      → Preserves P n
      → Preserves P (λ s. if b s then m s else n s)
  Preserves-test b m n p q = record {
    holds = λ s h. elim (b s) as (λ (x : Bool). P (if x then m s else n s).1) [
      | true ↦ p.holds s h
      | false ↦ q.holds s h
    ];
  }

  pub Preserves-noexcept : (m : Exec S A) → Preserves P m → Preserves P (noexcept m)
  Preserves-noexcept m p = record { holds = λ s h. p.holds s h }

module _ {ℓ} {S A B : Type ℓ} where
  abbrev pub at_option : Option A → Exec S B → (A → Exec S B) → Exec S B
  at_option o m f s = elim o [ none ↦ m s | some a ↦ f a s ]

  abbrev pub at_result : Result A → (A → Exec S B) → (Error → Exec S B) → Exec S B
  at_result r f g s = elim r [ ok a ↦ f a s | err x ↦ g x s ]

module _ {ℓ} {S A B : Type ℓ} {P : S → Type ℓ} where
  -- tests of the object itself, and steps that depend on what is found in it
  pub Preserves-option :
      (o : S → Option A) (m : Exec S B) (f : A → Exec S B)
      → Preserves P m
      → ((a : A) → Preserves P (f a))
      → Preserves P (λ s. at_option (o s) m f s)
  Preserves-option o m f p q = record {
    holds = λ s h. elim (o s) as (λ (x : Option A). P (at_option x m f s).1) [
      | none ↦ p.holds s h
      | some a ↦ (q a).holds s h
    ];
  }

  pub Preserves-result :
      (r : S → Result A) (f : A → Exec S B) (g : Error → Exec S B)
      → ((a : A) → Preserves P (f a))
      → ((x : Error) → Preserves P (g x))
      → Preserves P (λ s. at_result (r s) f g s)
  Preserves-result r f g p q = record {
    holds = λ s h. elim (r s) as (λ (x : Result A). P (at_result x f g s).1) [
      | ok a ↦ (p a).holds s h
      | err x ↦ (q x).holds s h
    ];
  }

  after_result :
      (r : Result A) (f : A → Exec S B)
      → ((a : A) → r ≡ ok a → Preserves P (f a))
      → Preserves P (continue r f)
  after_result (ok a) f p = p a refl
  after_result (err x) f p = record { holds = λ _ h. h }

  -- the rest may use what the first step returned
  pub Preserves-lift :
      (r : Result A) (f : A → Exec S B)
      → ((a : A) → r ≡ ok a → Preserves P (f a))
      → Preserves P (lift r >>= f)
  Preserves-lift r f p = record { holds = (after_result r f p).holds }

  pub Preserves->>= :
      (m : Exec S A) (f : A → Exec S B)
      → Preserves P m
      → ((a : A) → Preserves P (f a))
      → Preserves P (m >>= f)
  Preserves->>= m f p q = record {
    holds = λ s h. (after_result (m s).0 f (λ a _. q a)).holds (m s).1 (p.holds s h);
  }

pub ruleset preserves_rules = (Preserves-read, Preserves-elim, Preserves->>=, Preserves-noexcept)
