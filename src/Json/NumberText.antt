-- ===== src/Json/NumberText.antt =====
-- `parse_number` on the text of a number with more behind it.
use web_server_http.Common.{
  ◌-◌, Bool, true, [], ◌∷◌, ◌++◌, ◌≡◌, refl, ap, ◌∙◌, ◌||◌, ◌==◌, length, take, length-append,
  take-append, Bytes, is_digit, drop_while, Bool-cases, inl, inr, returned, arith,
}
use web_server_http.Json.Parse.{
  done, skip_if, skip_fraction, skip_exponent, after_number, parse_number,
}
use web_server_http.Json.Value.{Double, number}

-- What may stand behind a value in the text of an array or object, or nothing.
abbrev pub stops : Bytes → Bool
stops [] = true
stops (c ∷ s) = c == b',' || c == b']' || c == b'}'

drop_while-stops : (r : Bytes) → stops r ≡ true → drop_while is_digit r ≡ r
unfolding drop_while is_digit
drop_while-stops [] h = refl
drop_while-stops (c ∷ r) h = ground (arith, h)

drop_while-append :
    (s r : Bytes) → stops r ≡ true → drop_while is_digit (s ++ r) ≡ drop_while is_digit s ++ r
unfolding drop_while
drop_while-append [] r h = drop_while-stops r h
drop_while-append (c ∷ s) r h = elim (Bool-cases (is_digit c)) [
  | inl q ↦ rw q (drop_while-append s r h)
  | inr q ↦ rw q refl
]

skip_minus-append :
    (s r : Bytes)
    → stops r ≡ true
    → skip_if (λ x. x == b'-') (s ++ r) ≡ skip_if (λ x. x == b'-') s ++ r
unfolding skip_if
skip_minus-append [] [] h = refl
skip_minus-append [] (c ∷ r) h = ground (arith, h)
skip_minus-append (c ∷ s) r h = elim (Bool-cases (c == b'-')) [
  | inl q ↦ rw q refl
  | inr q ↦ rw q refl
]

skip_sign-append :
    (s r : Bytes)
    → stops r ≡ true
    → skip_if (λ x. x == b'+' || x == b'-') (s ++ r) ≡ skip_if (λ x. x == b'+' || x == b'-') s ++ r
unfolding skip_if
skip_sign-append [] [] h = refl
skip_sign-append [] (c ∷ r) h = ground (arith, h)
skip_sign-append (c ∷ s) r h = elim (Bool-cases (c == b'+' || c == b'-')) [
  | inl q ↦ rw q refl
  | inr q ↦ rw q refl
]

skip_fraction-append :
    (s r : Bytes) → stops r ≡ true → skip_fraction (s ++ r) ≡ skip_fraction s ++ r
unfolding skip_fraction
skip_fraction-append [] [] h = refl
skip_fraction-append [] (c ∷ r) h = ground (arith, h)
skip_fraction-append (c ∷ s) r h = elim (Bool-cases (c == b'.')) [
  | inl q ↦ rw q (drop_while-append s r h)
  | inr q ↦ rw q refl
]

skip_exponent-append :
    (s r : Bytes) → stops r ≡ true → skip_exponent (s ++ r) ≡ skip_exponent s ++ r
unfolding skip_exponent
skip_exponent-append [] [] h = refl
skip_exponent-append [] (c ∷ r) h = ground (arith, h)
skip_exponent-append (c ∷ s) r h = elim (Bool-cases (c == b'e' || c == b'E')) [
  | inl q ↦ rw q (
      ap (drop_while is_digit) (skip_sign-append s r h)
      ∙ drop_while-append (skip_if (λ x. x == b'+' || x == b'-') s) r h)
  | inr q ↦ rw q refl
]

after_number-append : (s r : Bytes) → stops r ≡ true → after_number (s ++ r) ≡ after_number s ++ r
unfolding after_number
after_number-append s r h =
    let a : Bytes = skip_if (λ x. x == b'-') s in
    let b : Bytes = drop_while is_digit a in
    ap (λ t. skip_exponent (skip_fraction (drop_while is_digit t))) (skip_minus-append s r h)
    ∙ ap (λ t. skip_exponent (skip_fraction t)) (drop_while-append a r h)
    ∙ ap skip_exponent (skip_fraction-append b r h)
    ∙ skip_exponent-append (skip_fraction b) r h

module _ (d : Double) where
  open d use {Carrier, stod}

  taken : (s r : Bytes) → take (length (s ++ r) - length r) (s ++ r) ≡ s
  taken s r =
      let all : length (s ++ r) - length r ≡ length s = omega (arith, length-append s r) in
      ap (λ n. take n (s ++ r)) all ∙ take-append s r

  -- A text that is one number from end to end is read as that number, and `parse_number` stops where
  -- the text ended.
  pub parse_number-append :
      (s r : Bytes) (x : Carrier)
      → after_number s ≡ []
      → stod s ≡ returned x
      → stops r ≡ true
      → parse_number d (s ++ r) ≡ done (number x) r
  unfolding parse_number
  parse_number-append s r x whole value h =
      let e : after_number (s ++ r) ≡ r = after_number-append s r h ∙ ap (λ t. t ++ r) whole in
      rw (e, taken s r, value, parse_number) (ap (done (number x)) e)
