-- ===== src/Json/Parse.antt =====
-- `JsonHandler::parse` and its helpers. The cursor `pos` is what is left of the text. The calls nest as
-- deep as the text does, so they run on fuel; `exhausted` is no outcome of the program.
use web_server_http.Common.{
  ℕ, zero, suc, ◌+◌, ◌-◌, ◌*◌, Bool, true, false, [], ◌∷◌, ◌||◌, ◌==◌, if◌then◌else◌, length, take,
  drop, Bytes, codes, is_prefix, is_digit, is_space, drop_while, returned, threw, Exception,
}
use web_server_http.Json.Value.{
  Double, JsonValue, null, boolean, number, string, array, object, Items, nil, Fields, end,
  push_item, set_field,
}

pub data Parsed (A : Type 0) : Type 0 where
  done : A → Bytes → Parsed A
  thrown : Exception → Parsed A
  exhausted : Parsed A

infixl 5 ◌>>=◌
abbrev pub ◌>>=◌ : {A B : Type 0} → Parsed A → (A × Bytes → Parsed B) → Parsed B
done a rest >>= f = f (a, rest)
thrown e >>= f = thrown e
exhausted >>= f = exhausted

unfoldable pub skip_whitespace : Bytes → Bytes
unfolding drop_while is_space
skip_whitespace s = drop_while is_space s

unfoldable pub unescape_byte : ℕ → ℕ
unescape_byte c =
    if c == b'b'
    then 8
    else if c == b'f'
    then 12
    else if c == b'n'
    then b'\n'
    else if c == b'r'
    then b'\r'
    else if c == b't'
    then b'\t'
    else c

-- The loop of `parse_string`, and the closing quote, where there is one.
unfoldable pub string_body : Bytes → Bytes × Bytes
unfolding unescape_byte
string_body [] = ([], [])
string_body (c ∷ []) = if c == b'"' then ([], []) else (c ∷ [], [])
string_body (c ∷ e ∷ s) = elim (c == b'"') [
  | true ↦ ([], e ∷ s)
  | false ↦ elim (c == b'\\') [
    | true ↦ let (a, rest) = string_body s in (unescape_byte e ∷ a, rest)
    | false ↦ let (a, rest) = string_body (e ∷ s) in (c ∷ a, rest)
  ]
]

unfoldable pub skip_if : (ℕ → Bool) → Bytes → Bytes
skip_if p [] = []
skip_if p (c ∷ s) = if p c then s else c ∷ s

-- What is behind a fraction, and behind an exponent.
unfoldable pub skip_fraction : Bytes → Bytes
unfolding drop_while is_digit
skip_fraction [] = []
skip_fraction (c ∷ s) = if c == b'.' then drop_while is_digit s else c ∷ s

unfoldable pub skip_exponent : Bytes → Bytes
unfolding drop_while is_digit skip_if
skip_exponent [] = []
skip_exponent (c ∷ s) =
    if c == b'e' || c == b'E'
    then drop_while is_digit (skip_if (λ x. x == b'+' || x == b'-') s)
    else c ∷ s

unfoldable pub after_number : Bytes → Bytes
unfolding skip_fraction skip_exponent drop_while is_digit skip_if
after_number s = skip_exponent (skip_fraction (drop_while is_digit (skip_if (λ x. x == b'-') s)))

-- What the first byte of a value selects.
pub data Kind : Type 0 where
  an_object an_array a_string a_number a_literal unknown : Kind

unfoldable pub kind_of : ℕ → Kind
unfolding is_digit
kind_of c =
    if c == b'{'
    then an_object
    else if c == b'['
    then an_array
    else if c == b'"'
    then a_string
    else if c == b'-' || is_digit c
    then a_number
    else if c == b't' || c == b'f' || c == b'n'
    then a_literal
    else unknown

module _ (d : Double) where
  open d use {Carrier, stod}

  unfoldable pub parse_number : Bytes → Parsed (JsonValue Carrier)
  unfolding after_number
  parse_number s = elim (stod (take (length s - length (after_number s)) s)) [
    | returned x ↦ done (number x) (after_number s)
    | threw e ↦ thrown e
  ]

  unfoldable pub parse_literal : Bytes → Parsed (JsonValue Carrier)
  unfolding is_prefix
  parse_literal s =
      if is_prefix (codes "true") s
      then done (boolean true) (drop 4 s)
      else if is_prefix (codes "false") s
      then done (boolean false) (drop 5 s)
      else if is_prefix (codes "null") s
      then done null (drop 4 s)
      else done null s

  unfoldable mutual
    pub parse_value : ℕ → Bytes → Parsed (JsonValue Carrier)
    parse_value zero s = exhausted
    parse_value (suc f) s = elim (skip_whitespace s) [
      | [] ↦ done null []
      | c ∷ r ↦ elim (kind_of c) [
        | an_object ↦ parse_object f r
        | an_array ↦ parse_array f r
        | a_string ↦ let (text, rest) = string_body r in done (string text) rest
        | a_number ↦ parse_number (c ∷ r)
        | a_literal ↦ parse_literal (c ∷ r)
        | unknown ↦ done null (c ∷ r)
      ]
    ]

    -- `parse_object` behind its opening brace.
    pub parse_object : ℕ → Bytes → Parsed (JsonValue Carrier)
    parse_object zero s = exhausted
    parse_object (suc f) s = elim (skip_whitespace s) [
      | [] ↦ done (object end) []
      | c ∷ r ↦ elim (c == b'}') [
        | true ↦ done (object end) r
        | false ↦ parse_members f end (c ∷ r)
      ]
    ]

    -- The loop of `parse_object`.
    pub parse_members : ℕ → Fields Carrier → Bytes → Parsed (JsonValue Carrier)
    parse_members zero fs s = exhausted
    parse_members (suc f) fs s = elim (skip_whitespace s) [
      | [] ↦ done (object fs) []
      | c ∷ r ↦ elim (c == b'"') [
        | false ↦ done (object fs) (c ∷ r)
        | true ↦
            let (key, behind) = string_body r in
            elim (skip_whitespace behind) [
              | [] ↦ done (object fs) []
              | e ∷ r' ↦ elim (e == b':') [
                | false ↦ done (object fs) (e ∷ r')
                | true ↦ do (v, rest) ← parse_value f r'; next_member f (set_field key v fs) rest
              ]
            ]
      ]
    ]

    -- The end of a round of that loop.
    pub next_member : ℕ → Fields Carrier → Bytes → Parsed (JsonValue Carrier)
    next_member zero fs s = exhausted
    next_member (suc f) fs s = elim (skip_whitespace s) [
      | [] ↦ done (object fs) []
      | c ∷ r ↦ elim (c == b'}') [
        | true ↦ done (object fs) r
        | false ↦ elim (c == b',') [
          | true ↦ parse_members f fs r
          | false ↦ done (object fs) (c ∷ r)
        ]
      ]
    ]

    -- `parse_array` behind its opening bracket.
    pub parse_array : ℕ → Bytes → Parsed (JsonValue Carrier)
    parse_array zero s = exhausted
    parse_array (suc f) s = elim (skip_whitespace s) [
      | [] ↦ done (array nil) []
      | c ∷ r ↦ elim (c == b']') [
        | true ↦ done (array nil) r
        | false ↦ parse_elements f nil (c ∷ r)
      ]
    ]

    -- The loop of `parse_array`.
    pub parse_elements : ℕ → Items Carrier → Bytes → Parsed (JsonValue Carrier)
    parse_elements zero xs s = exhausted
    parse_elements (suc f) xs [] = done (array xs) []
    parse_elements (suc f) xs (c ∷ r) = do
      (v, rest) ← parse_value f (c ∷ r)
      next_element f (push_item xs v) rest

    -- The end of a round of that loop.
    pub next_element : ℕ → Items Carrier → Bytes → Parsed (JsonValue Carrier)
    next_element zero xs s = exhausted
    next_element (suc f) xs s = elim (skip_whitespace s) [
      | [] ↦ done (array xs) []
      | c ∷ r ↦ elim (c == b']') [
        | true ↦ done (array xs) r
        | false ↦ elim (c == b',') [
          | true ↦ parse_elements f xs r
          | false ↦ done (array xs) (c ∷ r)
        ]
      ]
    ]

  -- `parse` skips white space once more, which changes nothing. Four calls at most for each byte, and
  -- four more.
  unfoldable pub parse : Bytes → Parsed (JsonValue Carrier)
  unfolding parse_value skip_whitespace kind_of parse_number parse_literal string_body set_field
      push_item
  parse s = parse_value (4 * length s + 4) (skip_whitespace s)
