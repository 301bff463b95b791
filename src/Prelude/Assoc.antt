-- ===== src/Prelude/Assoc.antt =====
-- `std::unordered_map` as an association list: `insert` and `emplace` leave an entry that is there
-- as it is, `assign` is a write through a reference to the mapped value.
pub mod Entries
use mathlib.Core.Path.{◌≡◌}
use mathlib.Core.Bool.{Bool, true, false}
use mathlib.Core.Option.{Option, none, some}
use mathlib.Core.List.{List, [], ◌∷◌}
use native.Mathlib.Omega.{arith}
use relaunchd.Prelude.Tests.{Eq, ◌==◌, if◌then◌else◌}

abbrev pub is_some {ℓ} : {A : Type ℓ} → Option A → Bool
is_some none = false
is_some (some a) = true

module _ {ℓ} {K V : Type ℓ} ⦃e : Eq K⦄ where
  unfoldable pub lookup : K → List (K × V) → Option V
  lookup k [] = none
  lookup k ((j, v) ∷ m) = if j == k then some v else lookup k m

  -- `m.count(k) > 0`
  abbrev pub contains : K → List (K × V) → Bool
  contains k m = is_some (lookup k m)

  unfoldable pub erase : K → List (K × V) → List (K × V)
  erase k [] = []
  erase k ((j, v) ∷ m) = let rest = erase k m in if j == k then rest else (j, v) ∷ rest

  unfoldable pub assign : K → V → List (K × V) → List (K × V)
  assign k v [] = []
  assign k v ((j, w) ∷ m) = if j == k then (j, v) ∷ m else (j, w) ∷ assign k v m

  unfoldable pub insert : K → V → List (K × V) → List (K × V)
  unfolding lookup
  insert k v m = if contains k m then m else (k, v) ∷ m

  pub lookup-erase :
      (k j : K) (m : List (K × V)) → lookup j (erase k m) ≡ (if k == j then none else lookup j m)
  unfolding lookup erase
  lookup-erase k j [] = ground arith
  lookup-erase k j ((i, v) ∷ m) =
      ground (arith, lookup-erase k j m, e.equals_iff i k, e.equals_iff i j, e.equals_iff k j)

  pub lookup-assign :
      (k j : K) (v : V) (m : List (K × V))
      → lookup j (assign k v m)
        ≡ (if k == j then (if contains k m then some v else none) else lookup j m)
  unfolding lookup assign
  lookup-assign k j v [] = ground arith
  lookup-assign k j v ((i, w) ∷ m) =
      ground (arith, lookup-assign k j v m, e.equals_iff i k, e.equals_iff i j, e.equals_iff k j)

  pub lookup-insert :
      (k j : K) (v : V) (m : List (K × V))
      → lookup j (insert k v m)
        ≡ (if contains k m then lookup j m else if k == j then some v else lookup j m)
  unfolding insert lookup
  lookup-insert k j v m = ground arith

pub ruleset assoc_laws = (lookup-erase, lookup-assign, lookup-insert)
