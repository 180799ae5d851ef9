-- ===== src/Json/WholeNumbers.antt =====
-- Whole numbers in JSON texts that are put together by hand, with `<<`.
use web_server_http.Common.{
  ℕ, ◌<◌, true, false, [], ◌∷◌, ◌≡◌, refl, ap, ◌∙◌, ◌==◌, Bytes, is_digit, drop_while, returned,
  arith,
}
use web_server_http.Common.Digits.{all_digits, some_digits, to_string-digits}
use web_server_http.Common.Numbers.{to_string}
use web_server_http.Json.Parse.{skip_if, skip_fraction, skip_exponent, after_number}
use web_server_http.Json.ParseSteps.{starts_number}
use web_server_http.Json.Print.{number_text}
use web_server_http.Json.Reading.{Readable}
use web_server_http.Json.Value.{Double}

drop_while-digits : (s : Bytes) → all_digits s ≡ true → drop_while is_digit s ≡ []
unfolding drop_while
drop_while-digits [] h = refl
drop_while-digits (c ∷ s) h = ground (arith, h, drop_while-digits s)

digits-number :
    (s : Bytes) → some_digits s ≡ true → (starts_number s ≡ true) × (after_number s ≡ [])
unfolding after_number skip_if skip_fraction skip_exponent is_digit
digits-number [] h = absurd (ground (arith, h))
digits-number (c ∷ s) h =
    let no_sign : (c == b'-') ≡ false = ground (arith, h) in
    (
      ground (arith, h),
      rw no_sign (ap (λ t. skip_exponent (skip_fraction t)) (drop_while-digits (c ∷ s) h)),
    )

module _ (d : Double) (whole : ℕ → d.Carrier) (limit : ℕ) where
  open d use {stod}

  -- Below the limit, the number for `n` is printed as `to_string n`, which `stod` reads back.
  abbrev pub Exact : Type 0
  Exact =
      (n : ℕ)
      → n < limit
      → (number_text d (whole n) ≡ to_string n) × (stod (to_string n) ≡ returned (whole n))

  pub whole-Readable : Exact → (n : ℕ) → n < limit → Readable d (whole n)
  whole-Readable exact n h =
      let (printed, read) = exact n h in
      let (first, last) = digits-number (to_string n) (to_string-digits n) in
      (ap starts_number printed ∙ first, ap after_number printed ∙ last, ap stod printed ∙ read)
