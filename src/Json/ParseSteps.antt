-- ===== src/Json/ParseSteps.antt =====
-- One step of the parser on each shape of text that `to_string` writes.
use web_server_http.Common.{
  ℕ, suc, Bool, true, false, [], ◌∷◌, ◌++◌, ◌≡◌, refl, ap, ◌∙◌, ◌||◌, not, ◌==◌, append_assoc,
  is_prefix, Bytes, codes, is_digit, is_space, drop_while, arith,
}
use web_server_http.Json.Escaping.{string_body-escape_string}
use web_server_http.Json.Parse.{
  done, ◌>>=◌, skip_whitespace, string_body, kind_of, a_number, parse_number, parse_literal,
  parse_value, parse_object, parse_members, next_member, parse_array, parse_elements, next_element,
}
use web_server_http.Json.Print.{quoted, escape_string}
use web_server_http.Json.Value.{
  Double, null, boolean, string, array, object, Items, nil, Fields, end, push_item, set_field,
}

-- A first byte that a value's text may have: no white space, no closing bracket.
abbrev pub opens : ℕ → Bool
opens c = not (is_space c || c == b']')

abbrev pub opens_text : Bytes → Bool
opens_text [] = false
opens_text (c ∷ s) = opens c

abbrev pub starts_number : Bytes → Bool
starts_number [] = false
starts_number (c ∷ s) = c == b'-' || is_digit c

pub number-first :
    (c : ℕ) (s : Bytes)
    → (c == b'-' || is_digit c) ≡ true
    → (skip_whitespace (c ∷ s) ≡ c ∷ s) × (kind_of c ≡ a_number)
unfolding skip_whitespace drop_while is_space is_digit kind_of
number-first c s h = ground (arith, h)

pub opens-first :
    (c : ℕ) (s : Bytes) → opens c ≡ true → (skip_whitespace (c ∷ s) ≡ c ∷ s) × ((c == b']') ≡ false)
unfolding skip_whitespace drop_while
opens-first c s h = ground (arith, h)

module _ (d : Double) where
  open d use {Carrier}

  pub value-number :
      (f : ℕ) (s : Bytes) → starts_number s ≡ true → parse_value d (suc f) s ≡ parse_number d s
  unfolding parse_value parse_number
  value-number f [] h = absurd (ground (arith, h))
  value-number f (c ∷ s) h = let (e, k) = number-first c s h in rw (parse_value, e, k) refl

  pub value-object : (f : ℕ) (s : Bytes) → parse_value d (suc f) (b'{' ∷ s) ≡ parse_object d f s
  unfolding parse_value skip_whitespace kind_of
  value-object f s = refl

  pub value-array : (f : ℕ) (s : Bytes) → parse_value d (suc f) (b'[' ∷ s) ≡ parse_array d f s
  unfolding parse_value skip_whitespace kind_of
  value-array f s = refl

  pub value-string :
      (f : ℕ) (t r : Bytes) → parse_value d (suc f) (quoted t ++ r) ≡ done (string t) r
  unfolding parse_value skip_whitespace kind_of quoted
  value-string f t r =
      rw (append_assoc (escape_string t) (b'"' ∷ []) r, string_body-escape_string t r) refl

  pub array-opens :
      (f : ℕ) (s : Bytes) → opens_text s ≡ true → parse_array d (suc f) s ≡ parse_elements d f nil s
  unfolding parse_array
  array-opens f [] h = absurd (ground (arith, h))
  array-opens f (c ∷ s) h = let (e, k) = opens-first c s h in rw (parse_array, e, k) refl

  pub elements-opens :
      (f : ℕ) (xs : Items Carrier) (s : Bytes)
      → opens_text s ≡ true
      → parse_elements d (suc f) xs s
        ≡ (parse_value d f s >>= λ v. next_element d f (push_item xs v.0) v.1)
  unfolding parse_elements
  elements-opens f xs [] h = absurd (ground (arith, h))
  elements-opens f xs (c ∷ s) h = refl

  pub object-quoted :
      (f : ℕ) (k r : Bytes)
      → parse_object d (suc f) (quoted k ++ r) ≡ parse_members d f end (quoted k ++ r)
  unfolding parse_object skip_whitespace drop_while is_space quoted
  object-quoted f k r = refl

  pub members-field :
      (f : ℕ) (fs : Fields Carrier) (k r : Bytes)
      → parse_members d (suc f) fs (quoted k ++ b':' ∷ r)
        ≡ (parse_value d f r >>= λ v. next_member d f (set_field k v.0 fs) v.1)
  unfolding parse_members skip_whitespace drop_while is_space quoted
  members-field f fs k r =
      let e : string_body ((escape_string k ++ b'"' ∷ []) ++ b':' ∷ r) ≡ (k, b':' ∷ r) =
        ap string_body (append_assoc (escape_string k) (b'"' ∷ []) (b':' ∷ r))
        ∙ string_body-escape_string k (b':' ∷ r) in
      rw (e, parse_members)
        (ap (λ p. parse_value d f r >>= λ w. next_member d f (set_field p.0 w.0 fs) w.1) e)

  pub next_member-end :
      (f : ℕ) (fs : Fields Carrier) (r : Bytes)
      → next_member d (suc f) fs (b'}' ∷ r) ≡ done (object fs) r
  unfolding next_member skip_whitespace drop_while is_space
  next_member-end f fs r = refl

  pub next_member-comma :
      (f : ℕ) (fs : Fields Carrier) (r : Bytes)
      → next_member d (suc f) fs (b',' ∷ r) ≡ parse_members d f fs r
  unfolding next_member skip_whitespace drop_while is_space
  next_member-comma f fs r = refl

  pub next_element-end :
      (f : ℕ) (xs : Items Carrier) (r : Bytes)
      → next_element d (suc f) xs (b']' ∷ r) ≡ done (array xs) r
  unfolding next_element skip_whitespace drop_while is_space
  next_element-end f xs r = refl

  pub next_element-comma :
      (f : ℕ) (xs : Items Carrier) (r : Bytes)
      → next_element d (suc f) xs (b',' ∷ r) ≡ parse_elements d f xs r
  unfolding next_element skip_whitespace drop_while is_space
  next_element-comma f xs r = refl

  pub value-null : (f : ℕ) (r : Bytes) → parse_value d (suc f) (codes "null" ++ r) ≡ done null r
  unfolding parse_value parse_literal skip_whitespace drop_while is_space kind_of is_prefix
  value-null f r = refl

  pub value-true :
      (f : ℕ) (r : Bytes) → parse_value d (suc f) (codes "true" ++ r) ≡ done (boolean true) r
  unfolding parse_value parse_literal skip_whitespace drop_while is_space kind_of is_prefix
  value-true f r = refl

  pub value-false :
      (f : ℕ) (r : Bytes) → parse_value d (suc f) (codes "false" ++ r) ≡ done (boolean false) r
  unfolding parse_value parse_literal skip_whitespace drop_while is_space kind_of is_prefix
  value-false f r = refl

  pub array-empty : (f : ℕ) (r : Bytes) → parse_array d (suc f) (b']' ∷ r) ≡ done (array nil) r
  unfolding parse_array skip_whitespace drop_while is_space
  array-empty f r = refl

  pub object-empty : (f : ℕ) (r : Bytes) → parse_object d (suc f) (b'}' ∷ r) ≡ done (object end) r
  unfolding parse_object skip_whitespace drop_while is_space
  object-empty f r = refl
