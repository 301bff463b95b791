-- ===== src/Prelude/Text.antt =====
-- Texts as code points, and the number readers of the C++ library: `strtol` skips white space,
-- takes a sign, then the longest run of digits, and ignores what follows it.
use Prim.Native.Char.{code}
use Prim.Native.Nat.{ℕ, ◌+◌, ◌-◌, ◌*◌, ◌%◌, ◌^◌}
use Prim.Native.String.{String}
use mathlib.Core.Path.{◌≡◌, refl}
use mathlib.Core.Bool.{Bool, true, false, ◌&&◌, ◌||◌}
use mathlib.Core.Option.{Option, none, some}
use mathlib.Core.List.{List, [], ◌∷◌}
use relaunchd.Prelude.Tests.{ltb, leb, nat_beq, if◌then◌else◌}
use relaunchd.Prelude.Int.{ℤ, pos, negsuc, negate}
use relaunchd.Prelude.Exec.{Result, ok, err, invalid_argument, out_of_range}

abbrev pub codes : String → List ℕ
codes String.[] = []
codes (String.◌∷◌ c s) = code c ∷ codes s

abbrev pub is_space : ℕ → Bool
is_space c = nat_beq c 32 || (leb 9 c && leb c 13)

unfoldable pub skip_space : List ℕ → List ℕ
skip_space [] = []
skip_space (c ∷ cs) = if is_space c then skip_space cs else c ∷ cs

-- `toupper` in the C locale
unfoldable pub to_upper : ℕ → ℕ
to_upper c = if leb b'a' c && leb c b'z' then c - 32 else c

-- The digits at the front, and whether there was one.
unfoldable pub read_digits : ℕ → ℕ → Bool → List ℕ → Option ℕ
read_digits base acc seen [] = if seen then some acc else none
read_digits base acc seen (c ∷ cs) =
    let more = read_digits base (acc * base + (c - b'0')) true cs in
    if leb b'0' c && ltb (c - b'0') base then more else if seen then some acc else none

-- A sign, and whether it is a minus.
abbrev pub read_sign : List ℕ → Bool × List ℕ
read_sign [] = (false, [])
read_sign (c ∷ cs) =
    if nat_beq c b'-' then (true, cs) else if nat_beq c b'+' then (false, cs) else (false, c ∷ cs)

abbrev pub int_max : ℕ
int_max = 2 ^ 31 - 1

abbrev in_int_range : Bool → ℕ → Result ℤ
in_int_range false n = if leb n int_max then ok (pos n) else err out_of_range
in_int_range true n = if leb n (int_max + 1) then ok (negate (pos n)) else err out_of_range

-- `std::stoi(s)`
unfoldable pub stoi : List ℕ → Result ℤ
unfolding read_digits skip_space
stoi s =
    let (minus, rest) = read_sign (skip_space s) in
    elim (read_digits 10 0 false rest) [
      | none ↦ err invalid_argument
      | some n ↦ in_int_range minus n
    ]

-- `std::stoul(s, nullptr, 8)`: a minus is taken modulo 2 ^ 64
unfoldable pub stoul_octal : List ℕ → Result ℕ
unfolding read_digits skip_space
stoul_octal s =
    let (minus, rest) = read_sign (skip_space s) in
    elim (read_digits 8 0 false rest) [
      | none ↦ err invalid_argument
      | some n ↦
          if leb n (2 ^ 64 - 1)
          then ok (if minus then (2 ^ 64 - n) % 2 ^ 64 else n)
          else err out_of_range
    ]

stoi_prefix : stoi (codes " -12ab") ≡ ok (negsuc 11)
unfolding stoi
stoi_prefix = refl

stoul_octal_mode : stoul_octal (codes "0755") ≡ ok 493
unfolding stoul_octal
stoul_octal_mode = refl
