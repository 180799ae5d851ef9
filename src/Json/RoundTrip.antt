-- ===== src/Json/RoundTrip.antt =====
-- `parse` on the texts that `to_string` writes for values as the code builds them.
use web_server_http.Common.{true, [], ◌≡◌, refl, ap, ◌∙◌}
use web_server_http.Json.Ordered.{increasing, set_fields, set_fields-append}
use web_server_http.Json.Parse.{done, parse}
use web_server_http.Json.Print.{to_text}
use web_server_http.Json.Reading.{
  Readable, Printable, PrintableItems, PrintableFields, sorted, sorted_items, sorted_fields,
  parse-sorted,
}
use web_server_http.Json.Value.{
  Double, JsonValue, null, boolean, number, string, array, object, Items, nil, cons, Fields, end,
  field,
}

module _ (d : Double) where
  open d use {Carrier}

  -- Every number of a value is readable, and the fields of every object are in key order.
  unfoldable mutual
    pub Storable : JsonValue Carrier → Type 0
    Storable null = Unit
    Storable (boolean b) = Unit
    Storable (number x) = Readable d x
    Storable (string s) = Unit
    Storable (array xs) = StorableItems xs
    Storable (object fs) = (increasing fs ≡ true) × StorableFields fs

    pub StorableItems : Items Carrier → Type 0
    StorableItems nil = Unit
    StorableItems (cons v vs) = Storable v × StorableItems vs

    pub StorableFields : Fields Carrier → Type 0
    StorableFields end = Unit
    StorableFields (field k v fs) = Storable v × StorableFields fs

  mutual
    unfolding Storable Printable sorted

    Storable-Printable : (v : JsonValue Carrier) → Storable v → Printable d v × (sorted d v ≡ v)
    Storable-Printable null h = (tt, refl)
    Storable-Printable (boolean b) h = (tt, refl)
    Storable-Printable (number x) h = (h, refl)
    Storable-Printable (string s) h = (tt, refl)
    Storable-Printable (array xs) h = let (p, e) = items-Printable xs h in (p, ap array e)
    Storable-Printable (object fs) h =
        let (p, e) = fields-Printable fs h.1 in
        (p, ap (λ gs. object (set_fields end gs)) e ∙ ap object (set_fields-append end fs h.0))

    items-Printable :
        (xs : Items Carrier) → StorableItems xs → PrintableItems d xs × (sorted_items d xs ≡ xs)
    items-Printable nil h = (tt, refl)
    items-Printable (cons v xs) h =
        let (p, e) = Storable-Printable v h.0 in
        let (ps, es) = items-Printable xs h.1 in
        ((p, ps), ap (λ w. cons w (sorted_items d xs)) e ∙ ap (cons v) es)

    fields-Printable :
        (fs : Fields Carrier) → StorableFields fs → PrintableFields d fs × (sorted_fields d fs ≡ fs)
    fields-Printable end h = (tt, refl)
    fields-Printable (field k v fs) h =
        let (p, e) = Storable-Printable v h.0 in
        let (ps, es) = fields-Printable fs h.1 in
        ((p, ps), ap (λ w. field k w (sorted_fields d fs)) e ∙ ap (field k v) es)

  -- The text that `to_string` writes for a value, whose objects have their fields in key order and whose
  -- numbers have JSON texts that `stod` reads back, is parsed to that value, to the end of the text.
  pub parse-to_text : (v : JsonValue Carrier) → Storable v → parse d (to_text d v) ≡ done v []
  parse-to_text v st =
      let (p, e) = Storable-Printable v st in parse-sorted d v p ∙ ap (λ w. done w []) e
