-- ===== src/Wrapper/Decimal.antt =====
-- LISTEN_FDS of sa-wrapper/wrapper.c as a decimal number.
use relaunchd.Prelude.{
  ℕ, zero, suc, ◌+◌, ◌-◌, ◌*◌, ◌/◌, ◌%◌, ◌^◌, ◌<◌, ◌≡◌, refl, sym, ap, ◌∙◌, Bool, true, false, some,
  List, [], ◌∷◌, ◌++◌, leb, ltb, arith, Bool-cases, inl, inr, if◌then◌else◌,
}
use mathlib.Core.List.{append-nil, append_assoc}
use relaunchd.Prelude.Text.{skip_space, read_sign, read_digits}
use relaunchd.Wrapper.{strtoul, drop_digits, converted}

-- the decimal digits of a number below the fuel
unfoldable pub decimal_from : ℕ → ℕ → List ℕ
decimal_from zero n = []
decimal_from (suc fuel) n =
    let front = decimal_from fuel (n / 10) in
    if ltb n 10 then (b'0' + n) ∷ [] else front ++ (b'0' + n % 10) ∷ []

unfoldable pub decimal : ℕ → List ℕ
unfolding decimal_from
decimal n = decimal_from (suc n) n

-- a digit goes to the number that was read so far
read_digits-digit :
    (acc d n : ℕ) (seen : Bool) (rest : List ℕ)
    → d < 10
    → acc * 10 + d ≡ n
    → read_digits 10 acc seen ((b'0' + d) ∷ rest) ≡ read_digits 10 n true rest
unfolding read_digits
read_digits-digit acc d n seen rest h m =
    let e : b'0' + d - b'0' ≡ d = omega arith in rw (e, m) (ground (arith, h))

drop_digits-digit :
    (d : ℕ) (rest : List ℕ) → d < 10 → drop_digits ((b'0' + d) ∷ rest) ≡ drop_digits rest
unfolding drop_digits
drop_digits-digit d rest h = ground (arith, h)

-- the last digit of a number that has several
decimal_from-several :
    (fuel n : ℕ) (rest : List ℕ)
    → ltb n 10 ≡ false
    → decimal_from (suc fuel) n ++ rest ≡ decimal_from fuel (n / 10) ++ ((b'0' + n % 10) ∷ rest)
unfolding decimal_from
decimal_from-several fuel n rest h =
    rw h (append_assoc (decimal_from fuel (n / 10)) ((b'0' + n % 10) ∷ []) rest)

decimal_from-one :
    (fuel n : ℕ) (rest : List ℕ)
    → ltb n 10 ≡ true
    → decimal_from (suc fuel) n ++ rest ≡ (b'0' + n) ∷ rest
unfolding decimal_from
decimal_from-one fuel n rest h = rw h refl

read_digits-decimal :
    (fuel n : ℕ) (rest : List ℕ)
    → n < fuel
    → read_digits 10 0 false (decimal_from fuel n ++ rest) ≡ read_digits 10 n true rest
read_digits-decimal zero n rest h = absurd (omega (arith, h))
read_digits-decimal (suc fuel) n rest h = elim (Bool-cases (ltb n 10)) [
  | inl one ↦
      rw (decimal_from-one fuel n rest one)
        (read_digits-digit 0 n n false rest (ground arith) (omega arith))
  | inr several ↦
      let shorter =
        read_digits-decimal fuel (n / 10) ((b'0' + n % 10) ∷ rest) (ground (arith, several, h)) in
      rw (decimal_from-several fuel n rest several)
        (shorter ∙ read_digits-digit (n / 10) (n % 10) n true rest (omega arith) (omega arith))
]

drop_digits-decimal :
    (fuel n : ℕ) (rest : List ℕ)
    → n < fuel
    → drop_digits (decimal_from fuel n ++ rest) ≡ drop_digits rest
drop_digits-decimal zero n rest h = absurd (omega (arith, h))
drop_digits-decimal (suc fuel) n rest h = elim (Bool-cases (ltb n 10)) [
  | inl one ↦ rw (decimal_from-one fuel n rest one) (drop_digits-digit n rest (ground arith))
  | inr several ↦
      let shorter =
        drop_digits-decimal fuel (n / 10) ((b'0' + n % 10) ∷ rest) (ground (arith, several, h)) in
      rw (decimal_from-several fuel n rest several)
        (shorter ∙ drop_digits-digit (n % 10) rest (omega arith))
]

-- no white space and no sign stands before a digit
digit_first :
    (d : ℕ) (rest : List ℕ)
    → d < 10
    → (skip_space ((b'0' + d) ∷ rest) ≡ (b'0' + d) ∷ rest)
      × (read_sign ((b'0' + d) ∷ rest) ≡ (false, (b'0' + d) ∷ rest))
unfolding skip_space
digit_first d rest h = ground (arith, h)

first_digit :
    (fuel n : ℕ) (rest : List ℕ)
    → n < fuel
    → (d : ℕ) × (r : List ℕ) × (d < 10) × (decimal_from fuel n ++ rest ≡ (b'0' + d) ∷ r)
first_digit zero n rest h = absurd (omega (arith, h))
first_digit (suc fuel) n rest h = elim (Bool-cases (ltb n 10)) [
  | inl one ↦ (n, rest, ground arith, decimal_from-one fuel n rest one)
  | inr several ↦
      let (d, r, small, e) =
        first_digit fuel (n / 10) ((b'0' + n % 10) ∷ rest) (ground (arith, several, h)) in
      (d, r, small, decimal_from-several fuel n rest several ∙ e)
]

strtoul_lem :
    (s : List ℕ) (n : ℕ)
    → skip_space s ≡ s
    → read_sign s ≡ (false, s)
    → read_digits 10 0 false s ≡ some n
    → drop_digits s ≡ []
    → leb n (2 ^ 64 - 1) ≡ true
    → strtoul s ≡ (n, [])
unfolding strtoul
strtoul_lem s n a b c d e =
    let split : read_sign (skip_space s) ≡ (false, s) = ap read_sign a ∙ b in
    ap (λ (x : Bool × List ℕ). converted s x.0 x.1 (read_digits 10 0 false x.1)) split
    ∙ ap (converted s false s) c
    ∙ ground (arith, d, e)

unsigned_text :
    (d : ℕ) (s r : List ℕ)
    → d < 10
    → s ≡ (b'0' + d) ∷ r
    → (skip_space s ≡ s) × (read_sign s ≡ (false, s))
unsigned_text d s r h e = let (a, b) = digit_first d r h in (rw e a, rw e b)

-- `strtoul` reads back the decimal digits of a number, and stops where they end
pub strtoul-decimal : (n : ℕ) → leb n (2 ^ 64 - 1) ≡ true → strtoul (decimal n) ≡ (n, [])
unfolding decimal read_digits drop_digits
strtoul-decimal n fits =
    let below : n < suc n = omega arith in
    let (d, r, small, e) = first_digit (suc n) n [] below in
    let s = decimal_from (suc n) n in
    let whole : s ++ [] ≡ s = append-nil s in
    let (a, b) = unsigned_text d s r small (sym whole ∙ e) in
    strtoul_lem s n a b
      (ap (read_digits 10 0 false) (sym whole) ∙ read_digits-decimal (suc n) n [] below)
      (ap drop_digits (sym whole) ∙ drop_digits-decimal (suc n) n [] below) fits
