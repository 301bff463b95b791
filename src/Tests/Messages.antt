-- ===== src/Tests/Messages.antt =====
-- The theorems on messages, for a text format of numbers: as many ones as the number says, then a two.
use mathlib.Core.List.{append-nil}
use relaunchd.Prelude.{
  ◌≡◌, refl, sym, ◌∙◌, ap, ℕ, zero, suc, ◌<◌, ◌^◌, Bool, true, List, [], ◌∷◌, ◌++◌, length, take,
  nat_beq, arith, ltb, if◌then◌else◌, length-append,
}
use relaunchd.Prelude.Int.{pos, minus_one}
use relaunchd.Prelude.Exec.{Result, ok, err, parse_error, runtime_error, system_error}
use relaunchd.Net.{Net, NetCall}
use relaunchd.Channel.{
  Channel, JsonText, JsonTextLaws, read_message, write_message, descriptor, encode,
}
use relaunchd.Channel.Message.{
  written, read_message-write_message, read_message_too_long, write_message-unnoticed,
}
use relaunchd.Tests.Systems.{net_with}

unfoldable unary : ℕ → List ℕ
unary zero = 2 ∷ []
unary (suc n) = 1 ∷ unary n

-- nothing or a null byte
abbrev ends : List ℕ → Bool
ends [] = true
ends (c ∷ cs) = nat_beq c 0

abbrev one_more : Result ℕ → Result ℕ
one_more (ok n) = ok (suc n)
one_more (err x) = err x

unfoldable read_unary : List ℕ → Result ℕ
read_unary [] = err parse_error
read_unary (c ∷ cs) =
    let rest = read_unary cs in
    if nat_beq c 1
    then one_more rest
    else if nat_beq c 2
    then (if ends cs then ok 0 else err parse_error)
    else err parse_error

abbrev unary_text : JsonText ℕ
unary_text = record { dump = unary; parse = read_unary }

abbrev count : List ℕ → ℕ
count vs = length vs

read_unary-unary : (n : ℕ) (rest : List ℕ) → read_unary ((unary n ++ (0 ∷ [])) ++ rest) ≡ ok n
unfolding read_unary unary
read_unary-unary zero rest = refl
read_unary-unary (suc n) rest = ap one_more (read_unary-unary n rest)

read_unary-take : (n k : ℕ) → k < length (unary n) → read_unary (take k (unary n)) ≡ err parse_error
unfolding read_unary unary take
read_unary-take zero zero h = refl
read_unary-take zero (suc k) h = absurd (omega (arith, h))
read_unary-take (suc n) zero h = refl
read_unary-take (suc n) (suc k) h = ap one_more (read_unary-take n k (omega (arith, h)))

unary_laws : JsonTextLaws unary_text count
unary_laws = record {
  parse-dump = read_unary-unary;
  parse-take = λ vs k h. read_unary-take (length vs) k h;
}

abbrev client : Channel
client = record { sockfd = pos 7; peerfd = minus_one; calls = [] }

abbrev server : Channel
server = record { sockfd = pos 5; peerfd = pos 6; calls = [] }

-- the two messages 3 and 1 arrive at once
read_message-write_message_example :
    (read_message (net_with (1 ∷ 1 ∷ 1 ∷ 2 ∷ 0 ∷ 1 ∷ 2 ∷ 0 ∷ [])) unary_text server).0 ≡ ok 3
unfolding write_message descriptor unary
read_message-write_message_example =
    read_message-write_message unary_text count unary_laws (net_with [])
      (net_with (1 ∷ 1 ∷ 1 ∷ 2 ∷ 0 ∷ 1 ∷ 2 ∷ 0 ∷ [])) 3 client server (1 ∷ 2 ∷ 0 ∷ [])
      (ground arith) refl refl refl refl

unfoldable zeros : ℕ → List ℕ
zeros zero = []
zeros (suc n) = 0 ∷ zeros n

length-zeros : (n : ℕ) → length (zeros n) ≡ n
unfolding zeros
length-zeros zero = refl
length-zeros (suc n) = ap suc (length-zeros n)

length-unary : (n : ℕ) → length (unary n) ≡ suc n
unfolding unary
length-unary zero = refl
length-unary (suc n) = ap suc (length-unary n)

abbrev large : List ℕ
large = zeros 40000

length-large : length (unary (length large)) ≡ 40001
length-large = length-unary (length large) ∙ ap suc (length-zeros 40000)

large_encoded : length (encode unary_text (count large)) ≡ 40002
large_encoded = omega (arith, length-large, length-append (unary (count large)) (0 ∷ []))

large_written : (write_message (net_with []) unary_text (count large) client).0 ≡ ok tt
unfolding write_message descriptor
large_written = ground (arith, large_encoded)

read_message_too_long_example :
    (read_message (net_with (encode unary_text (count large))) unary_text server).0
    ≡ err runtime_error
read_message_too_long_example =
    read_message_too_long unary_text count unary_laws (net_with [])
      (net_with (encode unary_text (count large))) large client server []
      (omega (arith, length-large)) large_written refl refl
      (sym (
        ap (λ bytes. bytes ++ [])
          (written unary_text count (net_with []) (count large) client large_written)
        ∙ append-nil (encode unary_text (count large))))

-- a network where each call fails
abbrev broken : Net
broken = record (net_with []) { answer = λ calls call. minus_one }

write_message-unnoticed_example :
    let bytes = broken.answer [] (NetCall.write (pos 7) (encode unary_text 3)) in
    let result = (write_message broken unary_text 3 client).0 in
    (bytes ≡ minus_one → result ≡ ok tt)
    × ((n : ℕ)
        → n < 2 ^ 63
        → bytes ≡ pos n
        → result ≡ (if ltb n (length (encode unary_text 3)) then err system_error else ok tt))
unfolding unary
write_message-unnoticed_example =
    write_message-unnoticed unary_text broken 3 client refl (ground arith)
