-- ===== src/Common/Digits.antt =====
-- `std::stoi` of what `std::to_string` prints.
use web_server_http.Common.{
  Bool, true, is_empty, if◌then◌else◌, ℕ, zero, suc, ◌+◌, ◌*◌, ◌/◌, ◌%◌, ◌^◌, ◌<◌, false, [], ◌∷◌,
  ◌≡◌, refl, sym, ap, ◌∙◌, none, some, ltb, ◌==◌, Bool-cases, inl, inr, Bytes, is_digit, is_space,
  drop_while, Option, returned, arith,
}
use web_server_http.Common.Numbers.{
  decimal_onto, to_string, digit_value, digit_in, digits_from, skip_hex_prefix, unsigned_digits,
  signed_digits, stoi, stoul,
}

digit_in-digit : (d : ℕ) → d < 10 → digit_in 10 (b'0' + d) ≡ some d
unfolding digit_in digit_value is_digit
digit_in-digit d h = ground (arith, h)

-- A digit in front.
digits_from-digit :
    (acc : Option ℕ) (d : ℕ) (s : Bytes)
    → d < 10
    → digits_from 10 acc ((b'0' + d) ∷ s)
      ≡ digits_from 10 (some (elim acc [ none ↦ d | some a ↦ a * 10 + d ])) s
unfolding digits_from
digits_from-digit acc d s h = rw (digits_from, digit_in-digit d h) refl

digits_from-decimal_onto :
    (fuel n : ℕ) (acc : Bytes)
    → n < fuel
    → digits_from 10 none (decimal_onto fuel n acc) ≡ digits_from 10 (some n) acc
unfolding decimal_onto
digits_from-decimal_onto zero n acc h = absurd (omega (arith, h))
digits_from-decimal_onto (suc fuel) n acc h =
    let last : n % 10 < 10 = omega arith in
    elim (Bool-cases (ltb n 10)) [
      | inl q ↦
          let whole : n % 10 ≡ n = ground (arith, q) in
          rw (q, decimal_onto)
            (digits_from-digit none (n % 10) acc last ∙ ap (λ k. digits_from 10 (some k) acc) whole)
      | inr q ↦
          let parts : n / 10 * 10 + n % 10 ≡ n = omega arith in
          rw (q, decimal_onto)
            (digits_from-decimal_onto fuel (n / 10) ((b'0' + n % 10) ∷ acc) (ground (arith, q, h))
              ∙ (digits_from-digit (some (n / 10)) (n % 10) acc last
                  ∙ ap (λ k. digits_from 10 (some k) acc) parts))
    ]

-- The printed number begins with a digit.
decimal_onto-cons :
    (fuel n : ℕ) (acc : Bytes)
    → n < fuel
    → (d : ℕ) × (rest : Bytes) × (d < 10) × (decimal_onto fuel n acc ≡ (b'0' + d) ∷ rest)
unfolding decimal_onto
decimal_onto-cons zero n acc h = absurd (omega (arith, h))
decimal_onto-cons (suc fuel) n acc h = elim (Bool-cases (ltb n 10)) [
  | inl q ↦ rw (q, decimal_onto) (n % 10, acc, omega arith, refl)
  | inr q ↦
      rw (q, decimal_onto)
        (decimal_onto-cons fuel (n / 10) ((b'0' + n % 10) ∷ acc) (ground (arith, q, h)))
]

skip_hex_prefix-ten : (s : Bytes) → skip_hex_prefix 10 s ≡ s
unfolding skip_hex_prefix
skip_hex_prefix-ten [] = refl
skip_hex_prefix-ten (z ∷ []) = refl
skip_hex_prefix-ten (z ∷ x ∷ []) = refl
skip_hex_prefix-ten (z ∷ x ∷ d ∷ s) = ground arith

signed_digits-digit :
    (d : ℕ) (s : Bytes) (n : ℕ)
    → d < 10
    → digits_from 10 none ((b'0' + d) ∷ s) ≡ some n
    → signed_digits 10 ((b'0' + d) ∷ s) ≡ some (false, n)
unfolding signed_digits unsigned_digits
signed_digits-digit d s n h e =
    let minus : (b'0' + d == b'-') ≡ false = ground (arith, h) in
    let plus : (b'0' + d == b'+') ≡ false = ground (arith, h) in
    rw (signed_digits, minus, plus, unsigned_digits, skip_hex_prefix-ten ((b'0' + d) ∷ s), e) refl

drop_while-digit :
    (d : ℕ) (s : Bytes) → d < 10 → drop_while is_space ((b'0' + d) ∷ s) ≡ (b'0' + d) ∷ s
unfolding drop_while is_space
drop_while-digit d s h = ground (arith, h)

-- The digits of a printed number stand for it.
pub signed_digits-to_string :
    (n : ℕ) → signed_digits 10 (drop_while is_space (to_string n)) ≡ some (false, n)
unfolding digits_from
signed_digits-to_string n =
    let (d, rest, small, e) = decimal_onto-cons (suc n) n [] (omega arith) in
    let printed : to_string n ≡ (b'0' + d) ∷ rest = unfold to_string in e in
    let value =
      sym (ap (digits_from 10 none) e) ∙ digits_from-decimal_onto (suc n) n [] (omega arith) in
    rw (printed, drop_while-digit d rest small) (signed_digits-digit d rest n small value)

-- `stoul` reads a printed number back, if an `unsigned long` can hold it.
pub stoul-to_string : (n : ℕ) → n < 2 ^ 64 → stoul (to_string n) ≡ returned n
unfolding stoul
stoul-to_string n h = rw (signed_digits-to_string n, stoul) (ground (arith, h))

-- `stoi` reads a printed number back, if an `int` can hold it.
pub stoi-to_string : (n : ℕ) → n < 2 ^ 31 → stoi 10 (to_string n) ≡ returned (false, n)
unfolding stoi
stoi-to_string n h = rw (signed_digits-to_string n, stoi) (ground (arith, h))

-- A digit, and then only digits.
abbrev pub all_digits : Bytes → Bool
all_digits [] = true
all_digits (c ∷ s) = if is_digit c then all_digits s else false

abbrev pub some_digits : Bytes → Bool
some_digits [] = false
some_digits (c ∷ s) = all_digits (c ∷ s)

decimal_onto-digits :
    (fuel n : ℕ) (acc : Bytes)
    → n < fuel
    → all_digits acc ≡ true
    → some_digits (decimal_onto fuel n acc) ≡ true
unfolding decimal_onto is_digit
decimal_onto-digits zero n acc h a = absurd (omega (arith, h))
decimal_onto-digits (suc fuel) n acc h a =
    ground (arith, a, h, decimal_onto-digits fuel (n / 10) ((b'0' + n % 10) ∷ acc))

pub to_string-digits : (n : ℕ) → some_digits (to_string n) ≡ true
unfolding to_string
to_string-digits n = decimal_onto-digits (suc n) n [] (omega arith) refl

pub digits-some : (s : Bytes) → some_digits s ≡ true → is_empty s ≡ false
digits-some [] h = absurd (ground (arith, h))
digits-some (c ∷ s) h = refl

pub some-all : (s : Bytes) → some_digits s ≡ true → all_digits s ≡ true
some-all [] h = absurd (ground (arith, h))
some-all (c ∷ s) h = h
