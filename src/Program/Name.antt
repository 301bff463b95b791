-- ===== src/Program/Name.antt =====
-- The test of src/main.cc for the name of the program.
use relaunchd.Prelude.{
  ℕ, ◌-◌, ◌≡◌, refl, sym, ◌∙◌, ap, Bool-cases, inl, inr, true, List, [], ◌∷◌, ◌++◌, length,
  length-append, ◌↔◌, arith, nat_beq, nat_beq_iff,
}
use mathlib.Core.Path.{subst}
use relaunchd.Program.{same, drop, ends_with}

same-eq : (xs ys : List ℕ) → same xs ys ≡ true → xs ≡ ys
unfolding same
same-eq [] [] h = refl
same-eq [] (y ∷ ys) h = absurd (ground (arith, h))
same-eq (x ∷ xs) [] h = absurd (ground (arith, h))
same-eq (x ∷ xs) (y ∷ ys) h = ground (arith, h, same-eq xs ys, nat_beq_iff x y)

same_refl : (xs : List ℕ) → same xs xs ≡ true
unfolding same
same_refl [] = refl
same_refl (x ∷ xs) = ground (arith, same_refl xs, nat_beq_iff x x)

drop-append : (xs ys : List ℕ) → drop (length xs) (xs ++ ys) ≡ ys
unfolding drop
drop-append [] [] = refl
drop-append [] (y ∷ ys) = refl
drop-append (x ∷ xs) ys = ground (arith, drop-append xs ys)

drop_split : (n : ℕ) (xs : List ℕ) → (front : List ℕ) × (xs ≡ front ++ drop n xs)
unfolding drop
drop_split n [] = ([], refl)
drop_split n (x ∷ xs) = elim (Bool-cases (nat_beq n 0)) [
  | inl e ↦ ([], rw e refl)
  | inr e ↦ let (front, h) = drop_split (n - 1) xs in (x ∷ front, rw e (ap (λ zs. x ∷ zs) h))
]

ends_with-tail :
    (path tail : List ℕ) → ends_with path tail ≡ true → drop (length path - length tail) path ≡ tail
unfolding ends_with
ends_with-tail path tail h = same-eq _ tail (ground (arith, h))

ends_with-append : (front tail : List ℕ) → ends_with (front ++ tail) tail ≡ true
unfolding ends_with
ends_with-append front tail =
    let n : (length (front ++ tail) - length tail) ≡ length front =
      omega (arith, length-append front tail) in
    rw (n, drop-append front tail) (ground (arith, length-append front tail, same_refl tail))

-- A path ends with `tail` if and only if it is some text and then `tail`.
pub ends_with_lem :
    (path tail : List ℕ)
    → (ends_with path tail ≡ true) ↔ ((front : List ℕ) × (path ≡ front ++ tail))
ends_with_lem path tail = (
  (λ h.
      let (front, e) = drop_split (length path - length tail) path in
      (front, e ∙ ap (λ zs. front ++ zs) (ends_with-tail path tail h))),
  (λ (front, e). subst (λ path. ends_with path tail ≡ true) (sym e) (ends_with-append front tail)),
)
