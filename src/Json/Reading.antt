-- ===== src/Json/Reading.antt =====
-- `parse` on the texts that `to_string` writes, whatever the order of an object's fields.
use web_server_http.Common.{
  ℕ, zero, suc, ◌+◌, ◌*◌, ◌≤◌, true, false, [], ◌∷◌, ◌++◌, ◌≡◌, refl, ap, ◌∙◌, sym, append_assoc,
  append-nil, length, length-append, Bytes, is_space, returned, arith,
}
use web_server_http.Json.NumberText.{stops, parse_number-append}
use web_server_http.Json.Ordered.{set_fields}
use web_server_http.Json.Parse.{
  done, ◌>>=◌, after_number, parse_value, parse_members, next_member, parse_elements, next_element,
  parse,
}
use web_server_http.Json.ParseSteps.{
  opens_text, starts_number, value-number, value-object, value-array, value-string, array-opens,
  elements-opens, object-quoted, members-field, next_member-end, next_member-comma,
  next_element-end, next_element-comma, value-null, value-true, value-false, array-empty,
  object-empty,
}
use web_server_http.Json.Pieces.{
  push_items, opens_text-append, opens_text-number, push_items-append, starts_number-append,
  field-regroup, skip_whitespace-opens,
}
use web_server_http.Json.Print.{number_text, to_text, items_text, fields_text, quoted}
use web_server_http.Json.Value.{
  Double, JsonValue, null, boolean, number, string, array, object, Items, nil, cons, Fields, end,
  field, push_item, set_field,
}

module _ (d : Double) where
  open d use {Carrier, stod}

  -- A number whose text is a JSON number, and is read back as it.
  abbrev pub Readable : Carrier → Type 0
  Readable x =
      (starts_number (number_text d x) ≡ true)
      × (after_number (number_text d x) ≡ [])
      × (stod (number_text d x) ≡ returned x)

  -- Every number of a value is readable.
  unfoldable mutual
    pub Printable : JsonValue Carrier → Type 0
    Printable null = Unit
    Printable (boolean b) = Unit
    Printable (number x) = Readable x
    Printable (string s) = Unit
    Printable (array xs) = PrintableItems xs
    Printable (object fs) = PrintableFields fs

    pub PrintableItems : Items Carrier → Type 0
    PrintableItems nil = Unit
    PrintableItems (cons v vs) = Printable v × PrintableItems vs

    pub PrintableFields : Fields Carrier → Type 0
    PrintableFields end = Unit
    PrintableFields (field k v fs) = Printable v × PrintableFields fs

  -- The value with the fields of every object set one after the other, as a map keeps them.
  unfoldable mutual
    unfolding set_field

    pub sorted : JsonValue Carrier → JsonValue Carrier
    sorted (array xs) = array (sorted_items xs)
    sorted (object fs) = object (set_fields end (sorted_fields fs))
    sorted v = v

    pub sorted_items : Items Carrier → Items Carrier
    sorted_items nil = nil
    sorted_items (cons v vs) = cons (sorted v) (sorted_items vs)

    pub sorted_fields : Fields Carrier → Fields Carrier
    sorted_fields end = end
    sorted_fields (field k v fs) = field k (sorted v) (sorted_fields fs)

  opens_text-to_text : (v : JsonValue Carrier) → Printable v → opens_text (to_text d v) ≡ true
  unfolding to_text is_space quoted Printable
  opens_text-to_text null h = refl
  opens_text-to_text (boolean true) h = refl
  opens_text-to_text (boolean false) h = refl
  opens_text-to_text (number x) h = opens_text-number (number_text d x) h.0
  opens_text-to_text (string s) h = refl
  opens_text-to_text (array nil) h = refl
  opens_text-to_text (array (cons v vs)) h = refl
  opens_text-to_text (object end) h = refl
  opens_text-to_text (object (field k v fs)) h = refl

  stops-items_text : (vs : Items Carrier) (r : Bytes) → stops (items_text d vs ++ r) ≡ true
  unfolding items_text
  stops-items_text nil r = refl
  stops-items_text (cons v vs) r = refl

  stops-fields_text : (fs : Fields Carrier) (r : Bytes) → stops (fields_text d fs ++ r) ≡ true
  unfolding fields_text
  stops-fields_text end r = refl
  stops-fields_text (field k v fs) r = refl

  mutual
    unfolding to_text items_text fields_text Printable sorted

    value-to_text :
        (f : ℕ) (v : JsonValue Carrier) (r : Bytes)
        → Printable v
        → stops r ≡ true
        → 4 * length (to_text d v ++ r) + 1 ≤ f
        → parse_value d f (to_text d v ++ r) ≡ done (sorted v) r
    value-to_text zero v r st c h = absurd (omega (arith, h))
    value-to_text (suc f) null r st c h = value-null d f r
    value-to_text (suc f) (boolean true) r st c h = value-true d f r
    value-to_text (suc f) (boolean false) r st c h = value-false d f r
    value-to_text (suc f) (number x) r st c h =
        value-number d f (number_text d x ++ r) (starts_number-append (number_text d x) r st.0)
        ∙ parse_number-append d (number_text d x) r x st.1 st.2 c
    value-to_text (suc f) (string s) r st c h = value-string d f s r
    value-to_text (suc f) (array vs) r st c h = array-to_text f vs r st (omega (arith, h))
    value-to_text (suc f) (object fs) r st c h = object-to_text f fs r st (omega (arith, h))

    array-to_text :
        (f : ℕ) (vs : Items Carrier) (r : Bytes)
        → PrintableItems vs
        → 4 * length (to_text d (array vs) ++ r) ≤ f
        → parse_value d (suc f) (to_text d (array vs) ++ r) ≡ done (sorted (array vs)) r
    array-to_text zero nil r st h = absurd (omega (arith, h))
    array-to_text zero (cons v vs) r st h = absurd (omega (arith, h))
    array-to_text (suc f) nil r st h = value-array d (suc f) (b']' ∷ r) ∙ array-empty d f r
    array-to_text (suc f) (cons v vs) r st h =
        let e : to_text d (array (cons v vs)) ++ r
            ≡ b'[' ∷ (to_text d v ++ (items_text d vs ++ r)) =
          ap (◌∷◌ b'[') (append_assoc (to_text d v) (items_text d vs) r) in
        ap (parse_value d (suc (suc f))) e
        ∙ value-array d (suc f) (to_text d v ++ (items_text d vs ++ r))
        ∙ array-opens d f (to_text d v ++ (items_text d vs ++ r))
            (opens_text-append (to_text d v) (items_text d vs ++ r) (opens_text-to_text v st.0))
        ∙ elements-to_text f nil v vs r st.0 st.1 (omega (arith, h, ap length e))
        ∙ ap (λ xs. done (array xs) r) (push_items-append nil (sorted_items (cons v vs)))

    object-to_text :
        (f : ℕ) (fs : Fields Carrier) (r : Bytes)
        → PrintableFields fs
        → 4 * length (to_text d (object fs) ++ r) ≤ f
        → parse_value d (suc f) (to_text d (object fs) ++ r) ≡ done (sorted (object fs)) r
    object-to_text zero end r st h = absurd (omega (arith, h))
    object-to_text zero (field k v fs) r st h = absurd (omega (arith, h))
    object-to_text (suc f) end r st h = value-object d (suc f) (b'}' ∷ r) ∙ object-empty d f r
    object-to_text (suc f) (field k v fs) r st h =
        let s : Bytes = quoted k ++ b':' ∷ (to_text d v ++ (fields_text d fs ++ r)) in
        let e : to_text d (object (field k v fs)) ++ r ≡ b'{' ∷ s =
          ap (◌∷◌ b'{') (field-regroup (quoted k) (to_text d v) (fields_text d fs) r) in
        ap (parse_value d (suc (suc f))) e
        ∙ value-object d (suc f) s
        ∙ object-quoted d f k (b':' ∷ (to_text d v ++ (fields_text d fs ++ r)))
        ∙ members-to_text f end k v fs r st.0 st.1 (
            omega (
              arith,
              h,
              ap length e,
              length-append (quoted k) (b':' ∷ (to_text d v ++ (fields_text d fs ++ r))),
            ))

    elements-to_text :
        (f : ℕ) (xs : Items Carrier) (v : JsonValue Carrier) (vs : Items Carrier) (r : Bytes)
        → Printable v
        → PrintableItems vs
        → 4 * length (to_text d v ++ (items_text d vs ++ r)) + 2 ≤ f
        → parse_elements d f xs (to_text d v ++ (items_text d vs ++ r))
          ≡ done (array (push_items xs (sorted_items (cons v vs)))) r
    elements-to_text zero xs v vs r st sts h = absurd (omega (arith, h))
    elements-to_text (suc f) xs v vs r st sts h =
        elements-opens d f xs (to_text d v ++ (items_text d vs ++ r))
          (opens_text-append (to_text d v) (items_text d vs ++ r) (opens_text-to_text v st))
        ∙ ap (λ p. p >>= λ w. next_element d f (push_item xs w.0) w.1)
            (value-to_text f v (items_text d vs ++ r) st (stops-items_text vs r) (omega (arith, h)))
        ∙ next_element-to_text f (push_item xs (sorted v)) vs r sts
            (omega (arith, h, length-append (to_text d v) (items_text d vs ++ r)))

    next_element-to_text :
        (f : ℕ) (xs vs : Items Carrier) (r : Bytes)
        → PrintableItems vs
        → 4 * length (items_text d vs ++ r) + 1 ≤ f
        → next_element d f xs (items_text d vs ++ r)
          ≡ done (array (push_items xs (sorted_items vs))) r
    next_element-to_text zero xs vs r sts h = absurd (omega (arith, h))
    next_element-to_text (suc f) xs nil r sts h = next_element-end d f xs r
    next_element-to_text (suc f) xs (cons v vs) r sts h =
        let e : items_text d (cons v vs) ++ r ≡ b',' ∷ (to_text d v ++ (items_text d vs ++ r)) =
          ap (◌∷◌ b',') (append_assoc (to_text d v) (items_text d vs) r) in
        ap (next_element d (suc f) xs) e
        ∙ next_element-comma d f xs (to_text d v ++ (items_text d vs ++ r))
        ∙ elements-to_text f xs v vs r sts.0 sts.1 (omega (arith, h, ap length e))

    members-to_text :
        (f : ℕ) (fs : Fields Carrier) (k : Bytes) (v : JsonValue Carrier) (gs : Fields Carrier)
        (r : Bytes)
        → Printable v
        → PrintableFields gs
        → 4 * length (to_text d v ++ (fields_text d gs ++ r)) + 6 ≤ f
        → parse_members d f fs (quoted k ++ b':' ∷ (to_text d v ++ (fields_text d gs ++ r)))
          ≡ done (object (set_fields fs (sorted_fields (field k v gs)))) r
    members-to_text zero fs k v gs r st sts h = absurd (omega (arith, h))
    members-to_text (suc f) fs k v gs r st sts h =
        members-field d f fs k (to_text d v ++ (fields_text d gs ++ r))
        ∙ ap (λ p. p >>= λ w. next_member d f (set_field k w.0 fs) w.1)
            (value-to_text f v (fields_text d gs ++ r) st (stops-fields_text gs r)
              (omega (arith, h)))
        ∙ next_member-to_text f (set_field k (sorted v) fs) gs r sts
            (omega (arith, h, length-append (to_text d v) (fields_text d gs ++ r)))

    next_member-to_text :
        (f : ℕ) (fs gs : Fields Carrier) (r : Bytes)
        → PrintableFields gs
        → 4 * length (fields_text d gs ++ r) + 1 ≤ f
        → next_member d f fs (fields_text d gs ++ r)
          ≡ done (object (set_fields fs (sorted_fields gs))) r
    next_member-to_text zero fs gs r sts h = absurd (omega (arith, h))
    next_member-to_text (suc f) fs end r sts h = next_member-end d f fs r
    next_member-to_text (suc f) fs (field k v gs) r sts h =
        let e : fields_text d (field k v gs) ++ r
            ≡ b',' ∷ (quoted k ++ b':' ∷ (to_text d v ++ (fields_text d gs ++ r))) =
          ap (◌∷◌ b',') (field-regroup (quoted k) (to_text d v) (fields_text d gs) r) in
        ap (next_member d (suc f) fs) e
        ∙ next_member-comma d f fs (quoted k ++ b':' ∷ (to_text d v ++ (fields_text d gs ++ r)))
        ∙ members-to_text f fs k v gs r sts.0 sts.1 (
            omega (
              arith,
              h,
              ap length e,
              length-append (quoted k) (b':' ∷ (to_text d v ++ (fields_text d gs ++ r))),
            ))

  -- The text of a value with readable numbers is parsed, to its end, to the value in key order.
  pub parse-sorted :
      (v : JsonValue Carrier) → Printable v → parse d (to_text d v) ≡ done (sorted v) []
  unfolding parse
  parse-sorted v st =
      let s : Bytes = to_text d v in
      let all : s ++ [] ≡ s = append-nil s in
      ap (parse_value d (4 * length s + 4))
        (skip_whitespace-opens s (opens_text-to_text v st) ∙ sym all)
      ∙ value-to_text (4 * length s + 4) v [] st refl (omega (arith, ap length all))
