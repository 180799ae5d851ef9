-- ===== src/Common/Numbers.antt =====
-- `std::to_string`, and `std::stoi` and `std::stoul` as the standard describes them: white space, a
-- sign, for base 16 an optional "0x", then digits as far as they go.
use Prim.Native.Nat.{ℕ, zero, suc, ◌+◌, ◌-◌, ◌*◌, ◌/◌, ◌%◌, ◌^◌}
use mathlib.Core.Bool.{Bool, true, false, ◌&&◌, ◌||◌}
use mathlib.Core.List.{[], ◌∷◌}
use mathlib.Core.Option.{Option, none, some}
use web_server_http.Common.Tests.{ltb, leb, ◌==◌, if◌then◌else◌}
use web_server_http.Common.Text.{Bytes, drop_while, is_space, is_digit}
use web_server_http.Common.Throwing.{Try, returned, threw, invalid_argument, out_of_range}

-- The decimal digits of `n` in front of `acc`. A number has fewer digits than its successor.
unfoldable pub decimal_onto : ℕ → ℕ → Bytes → Bytes
decimal_onto zero n acc = acc
decimal_onto (suc fuel) n acc =
    let digit : ℕ = b'0' + n % 10 in
    elim (ltb n 10) [ true ↦ digit ∷ acc | false ↦ decimal_onto fuel (n / 10) (digit ∷ acc) ]

unfoldable pub to_string : ℕ → Bytes
unfolding decimal_onto
to_string n = decimal_onto (suc n) n []

-- The value of a digit in bases up to 16.
unfoldable pub digit_value : ℕ → Option ℕ
unfolding is_digit
digit_value c =
    if is_digit c
    then some (c - b'0')
    else if leb b'a' c && leb c b'f'
    then some (c - b'a' + 10)
    else if leb b'A' c && leb c b'F'
    then some (c - b'A' + 10)
    else none

unfoldable pub digit_in : ℕ → ℕ → Option ℕ
unfolding digit_value
digit_in base c = elim (digit_value c) [
  | none ↦ none
  | some d ↦ if ltb d base then some d else none
]

-- The number that the digits in front stand for, on top of `acc`; `none` if there was no digit.
unfoldable pub digits_from : ℕ → Option ℕ → Bytes → Option ℕ
digits_from base acc [] = acc
digits_from base acc (c ∷ s) = elim (digit_in base c) [
  | none ↦ acc
  | some d ↦ digits_from base (some (elim acc [ none ↦ d | some a ↦ a * base + d ])) s
]

-- Base 16 skips "0x" where a digit follows.
unfoldable pub skip_hex_prefix : ℕ → Bytes → Bytes
unfolding digit_in
skip_hex_prefix base (z ∷ x ∷ d ∷ s) = elim (digit_in base d) [
  | none ↦ z ∷ x ∷ d ∷ s
  | some v ↦ if base == 16 && (z == b'0') && (x == b'x' || x == b'X') then d ∷ s else z ∷ x ∷ d ∷ s
]
skip_hex_prefix base s = s

unfoldable pub unsigned_digits : ℕ → Bytes → Option ℕ
unfolding skip_hex_prefix digits_from digit_in
unsigned_digits base s = digits_from base none (skip_hex_prefix base s)

-- A sign (true for minus) and a magnitude.
unfoldable pub signed_digits : ℕ → Bytes → Option (Bool × ℕ)
unfolding unsigned_digits
signed_digits base [] = none
signed_digits base (c ∷ s) =
    if c == b'-'
    then elim (unsigned_digits base s) [ none ↦ none | some n ↦ some (true, n) ]
    else if c == b'+'
    then elim (unsigned_digits base s) [ none ↦ none | some n ↦ some (false, n) ]
    else elim (unsigned_digits base (c ∷ s)) [ none ↦ none | some n ↦ some (false, n) ]

-- `stoi(s, nullptr, base)` for a 32-bit `int`.
unfoldable pub stoi : ℕ → Bytes → Try (Bool × ℕ)
unfolding signed_digits drop_while is_space
stoi base s = elim (signed_digits base (drop_while is_space s)) [
  | none ↦ threw invalid_argument
  | some (negative, n) ↦
      if leb n (if negative then 2 ^ 31 else 2 ^ 31 - 1)
      then returned (negative, n)
      else threw out_of_range
]

-- `stoul(s)` for a 64-bit `unsigned long`; a minus sign wraps around.
unfoldable pub stoul : Bytes → Try ℕ
unfolding signed_digits drop_while is_space
stoul s = elim (signed_digits 10 (drop_while is_space s)) [
  | none ↦ threw invalid_argument
  | some (negative, n) ↦
      if leb (2 ^ 64) n
      then threw out_of_range
      else returned (if negative then (2 ^ 64 - n) % 2 ^ 64 else n)
]

-- The number whose most significant part is already read.
abbrev pub value_onto : ℕ → Bytes → ℕ
value_onto acc [] = acc
value_onto acc (c ∷ s) = value_onto (acc * 10 + (c - b'0')) s
