-- ===== src/Json/Termination.antt =====
-- The parser returns on every text: the fuel that `parse` starts with is enough.
use web_server_http.Common.{
  ℕ, zero, suc, ◌+◌, ◌*◌, ◌≤◌, Bool, [], ◌∷◌, ◌≢◌, ◌==◌, length, Bytes, drop_while, is_space,
  is_digit, arith, length-drop, ◌||◌, ap, subst, inl, inr, Bool-cases, List-cases, ◌-◌,
}
use web_server_http.Json.Parse.{
  Parsed, done, thrown, exhausted, ◌>>=◌, skip_whitespace, string_body, skip_if, skip_fraction,
  skip_exponent, after_number, parse_number, parse_literal, parse_value, parse_object,
  parse_members, next_member, parse_array, parse_elements, next_element, parse,
}
use web_server_http.Json.Value.{Double, JsonValue, Items, nil, Fields, end, push_item, set_field}

-- An outcome of the program that leaves no more than `n` bytes.
abbrev pub Leaves : {A : Type 0} → ℕ → Parsed A → Type 0
Leaves n (done a rest) = length rest ≤ n
Leaves n (thrown e) = Unit {0}
Leaves n exhausted = ⊥

Leaves-mono : {A : Type 0} (m n : ℕ) (p : Parsed A) → m ≤ n → Leaves m p → Leaves n p
Leaves-mono m n (done a rest) h l = omega arith
Leaves-mono m n (thrown e) h l = tt
Leaves-mono m n exhausted h l = l

-- A bind, where what follows needs no more than the first part leaves.
bind-Leaves :
    {A B : Type 0} (m n : ℕ) (p : Parsed A) (f : A × Bytes → Parsed B)
    → Leaves m p
    → ((a : A) (rest : Bytes) → length rest ≤ m → Leaves n (f (a, rest)))
    → Leaves n (p >>= f)
bind-Leaves m n (done a rest) f l k = k a rest l
bind-Leaves m n (thrown e) f l k = tt
bind-Leaves m n exhausted f l k = absurd l

drop_while-le : (p : ℕ → Bool) (s : Bytes) → length (drop_while p s) ≤ length s
unfolding drop_while
drop_while-le p [] = omega arith
drop_while-le p (c ∷ s) = ground (arith, drop_while-le p s)

skip_whitespace-le : (s : Bytes) → length (skip_whitespace s) ≤ length s
unfolding skip_whitespace
skip_whitespace-le s = drop_while-le is_space s

string_body-le : (s : Bytes) → length (string_body s).1 ≤ length s
unfolding string_body
string_body-le [] = omega arith
string_body-le (c ∷ []) = ground arith
string_body-le (c ∷ e ∷ s) = ground (arith, string_body-le s, string_body-le (e ∷ s))

skip_if-le : (p : ℕ → Bool) (s : Bytes) → length (skip_if p s) ≤ length s
unfolding skip_if
skip_if-le p [] = omega arith
skip_if-le p (c ∷ s) = ground arith

skip_fraction-le : (s : Bytes) → length (skip_fraction s) ≤ length s
unfolding skip_fraction
skip_fraction-le [] = omega arith
skip_fraction-le (c ∷ s) = ground (arith, drop_while-le is_digit s)

skip_exponent-le : (s : Bytes) → length (skip_exponent s) ≤ length s
unfolding skip_exponent
skip_exponent-le [] = omega arith
skip_exponent-le (c ∷ s) = ground (
  arith,
  skip_if-le (λ x. x == b'+' || x == b'-') s,
  drop_while-le is_digit (skip_if (λ x. x == b'+' || x == b'-') s),
)

after_number-le : (s : Bytes) → length (after_number s) ≤ length s
unfolding after_number
after_number-le s = omega (
  arith,
  skip_if-le (λ x. x == b'-') s,
  drop_while-le is_digit (skip_if (λ x. x == b'-') s),
  skip_fraction-le (drop_while is_digit (skip_if (λ x. x == b'-') s)),
  skip_exponent-le (skip_fraction (drop_while is_digit (skip_if (λ x. x == b'-') s))),
)

module _ (d : Double) where
  open d use {Carrier, stod}

  parse_number-Leaves : (s : Bytes) → Leaves (length s) (parse_number d s)
  unfolding parse_number
  parse_number-Leaves s = ground (arith, after_number-le s)

  parse_literal-Leaves : (s : Bytes) → Leaves (length s) (parse_literal d s)
  unfolding parse_literal
  parse_literal-Leaves s = ground (arith, length-drop {0} 4 s, length-drop {0} 5 s)

  -- With four calls for each byte left, and a few more, no function runs out of fuel, and a loop is
  -- never left with more than it began with.
  mutual
    unfolding parse_value

    value-Leaves :
        (f n : ℕ) (s : Bytes) → length s ≤ n → 4 * n + 1 ≤ f → Leaves n (parse_value d f s)
    value-Leaves zero n s h g = absurd (omega arith)
    value-Leaves (suc f) n s h g = elim (List-cases (skip_whitespace s)) [
      | inl e ↦ rw (e, parse_value) (omega arith)
      | inr (c, r, e) ↦
          let k : length (c ∷ r) ≤ n = omega (arith, ap length e, skip_whitespace-le s) in
          rw (e, parse_value)
            (ground (
              arith,
              Leaves-mono (n - 1) n (parse_object d f r) (omega arith)
                  (object-Leaves f (n - 1) r (omega arith) (omega arith)),
              Leaves-mono (n - 1) n (parse_array d f r) (omega arith)
                  (array-Leaves f (n - 1) r (omega arith) (omega arith)),
              string_body-le r,
              Leaves-mono (length (c ∷ r)) n (parse_number d (c ∷ r)) k
                  (parse_number-Leaves (c ∷ r)),
              Leaves-mono (length (c ∷ r)) n (parse_literal d (c ∷ r)) k
                  (parse_literal-Leaves (c ∷ r)),
            ))
    ]

    object-Leaves :
        (f n : ℕ) (s : Bytes) → length s ≤ n → 4 * n + 3 ≤ f → Leaves n (parse_object d f s)
    object-Leaves zero n s h g = absurd (omega arith)
    object-Leaves (suc f) n s h g = elim (List-cases (skip_whitespace s)) [
      | inl e ↦ rw (e, parse_object) (omega arith)
      | inr (c, r, e) ↦
          let k : length (c ∷ r) ≤ n = omega (arith, ap length e, skip_whitespace-le s) in
          rw (e, parse_object) (ground (arith, members-Leaves f n end (c ∷ r) k (omega arith)))
    ]

    members-Leaves :
        (f n : ℕ) (fs : Fields Carrier) (s : Bytes)
        → length s ≤ n
        → 4 * n + 2 ≤ f
        → Leaves n (parse_members d f fs s)
    members-Leaves zero n fs s h g = absurd (omega arith)
    members-Leaves (suc f) n fs s h g = elim (List-cases (skip_whitespace s)) [
      | inl e ↦ rw (e, parse_members) (omega arith)
      | inr (c, r, e) ↦
          let k : length (c ∷ r) ≤ n = omega (arith, ap length e, skip_whitespace-le s) in
          elim (Bool-cases (c == b'"')) [
            | inr q ↦ rw (e, q, parse_members) k
            | inl q ↦ elim (List-cases (skip_whitespace (string_body r).1)) [
              | inl e' ↦ rw (e, q, e', parse_members) (omega arith)
              | inr (x, r', e') ↦
                  let k' : length (x ∷ r') ≤ n - 1 =
                    omega (
                      arith,
                      ap length e',
                      skip_whitespace-le (string_body r).1,
                      string_body-le r,
                    ) in
                  rw (e, q, e', parse_members)
                    (ground (
                      arith,
                      bind-Leaves (n - 1) n (parse_value d f r')
                          (λ v. next_member d f (set_field (string_body r).0 v.0 fs) v.1)
                          (value-Leaves f (n - 1) r' (omega arith) (omega arith))
                          (λ v rest l. next_member-Leaves f n _ rest (omega arith) (omega arith)),
                    ))
            ]
          ]
    ]

    next_member-Leaves :
        (f n : ℕ) (fs : Fields Carrier) (s : Bytes)
        → length s ≤ n
        → 4 * n + 1 ≤ f
        → Leaves n (next_member d f fs s)
    next_member-Leaves zero n fs s h g = absurd (omega arith)
    next_member-Leaves (suc f) n fs s h g = elim (List-cases (skip_whitespace s)) [
      | inl e ↦ rw (e, next_member) (omega arith)
      | inr (c, r, e) ↦
          let k : length (c ∷ r) ≤ n = omega (arith, ap length e, skip_whitespace-le s) in
          rw (e, next_member)
            (ground (
              arith,
              Leaves-mono (n - 1) n (parse_members d f fs r) (omega arith)
                  (members-Leaves f (n - 1) fs r (omega arith) (omega arith)),
            ))
    ]

    array-Leaves :
        (f n : ℕ) (s : Bytes) → length s ≤ n → 4 * n + 3 ≤ f → Leaves n (parse_array d f s)
    array-Leaves zero n s h g = absurd (omega arith)
    array-Leaves (suc f) n s h g = elim (List-cases (skip_whitespace s)) [
      | inl e ↦ rw (e, parse_array) (omega arith)
      | inr (c, r, e) ↦
          let k : length (c ∷ r) ≤ n = omega (arith, ap length e, skip_whitespace-le s) in
          rw (e, parse_array) (ground (arith, elements-Leaves f n nil (c ∷ r) k (omega arith)))
    ]

    elements-Leaves :
        (f n : ℕ) (xs : Items Carrier) (s : Bytes)
        → length s ≤ n
        → 4 * n + 2 ≤ f
        → Leaves n (parse_elements d f xs s)
    elements-Leaves zero n xs s h g = absurd (omega arith)
    elements-Leaves (suc f) n xs [] h g = omega arith
    elements-Leaves (suc f) n xs (c ∷ r) h g =
        bind-Leaves n n (parse_value d f (c ∷ r)) (λ v. next_element d f (push_item xs v.0) v.1)
          (value-Leaves f n (c ∷ r) h (omega arith))
          (λ v rest l. next_element-Leaves f n _ rest l (omega arith))

    next_element-Leaves :
        (f n : ℕ) (xs : Items Carrier) (s : Bytes)
        → length s ≤ n
        → 4 * n + 1 ≤ f
        → Leaves n (next_element d f xs s)
    next_element-Leaves zero n xs s h g = absurd (omega arith)
    next_element-Leaves (suc f) n xs s h g = elim (List-cases (skip_whitespace s)) [
      | inl e ↦ rw (e, next_element) (omega arith)
      | inr (c, r, e) ↦
          let k : length (c ∷ r) ≤ n = omega (arith, ap length e, skip_whitespace-le s) in
          rw (e, next_element)
            (ground (
              arith,
              Leaves-mono (n - 1) n (parse_elements d f xs r) (omega arith)
                  (elements-Leaves f (n - 1) xs r (omega arith) (omega arith)),
            ))
    ]

  -- Whatever the text and the numbers, `parse` comes to an end: it returns a value or throws.
  pub parse-ne-exhausted : (s : Bytes) → parse d s ≢ exhausted
  unfolding parse
  parse-ne-exhausted s h = subst (Leaves {A = JsonValue Carrier} (length s)) h (
      value-Leaves (4 * length s + 4) (length s) (skip_whitespace s) (skip_whitespace-le s)
        (omega arith))
