-- ===== src/Prelude/Assoc/Entries.antt =====
-- A property of all entries of a map, through the operations on it.
use mathlib.Core.Path.{◌≡◌}
use mathlib.Core.Option.{some}
use mathlib.Core.List.{List, [], ◌∷◌}
use native.Mathlib.Omega.{arith}
use relaunchd.Prelude.Tests.{Eq}
use relaunchd.Prelude.Lists.{All}
use relaunchd.Prelude.Assoc.{lookup, erase, assign, insert}

module _ {K V : Type 0} ⦃e : Eq K⦄ (P : K → V → Type 0) where
  abbrev pub Entries : List (K × V) → Type 0
  Entries m = All (λ entry. P entry.0 entry.1) m

  pub Entries-lookup : (k : K) (v : V) (m : List (K × V)) → Entries m → lookup k m ≡ some v → P k v
  unfolding lookup
  Entries-lookup k v [] h found = absurd (ground (arith, found))
  Entries-lookup k v ((j, w) ∷ m) h found =
      ground (arith, h, found, e.equals_iff j k, Entries-lookup k v m)

  pub Entries-erase : (k : K) (m : List (K × V)) → Entries m → Entries (erase k m)
  unfolding erase
  Entries-erase k [] h = tt
  Entries-erase k ((j, w) ∷ m) h = ground (arith, h, Entries-erase k m)

  pub Entries-assign :
      (k : K) (v : V) (m : List (K × V)) → P k v → Entries m → Entries (assign k v m)
  unfolding assign
  Entries-assign k v [] p h = tt
  Entries-assign k v ((j, w) ∷ m) p h =
      ground (arith, p, h, e.equals_iff j k, Entries-assign k v m p)

  pub Entries-insert :
      (k : K) (v : V) (m : List (K × V)) → P k v → Entries m → Entries (insert k v m)
  unfolding insert
  Entries-insert k v m p h = ground (arith, p, h)
