-- ===== src/Json/Print.antt =====
-- `JsonHandler::escape_string` and `JsonValue::to_string`.
use web_server_http.Common.{
  ℕ, true, false, [], ◌∷◌, ◌++◌, ◌==◌, if◌then◌else◌, Bytes, codes, drop_while_end,
}
use web_server_http.Json.Value.{
  Double, JsonValue, null, boolean, number, string, array, object, Items, nil, cons, Fields, end,
  field,
}

unfoldable pub escape_byte : ℕ → Bytes
escape_byte c =
    if c == b'"'
    then b'\\' ∷ b'"' ∷ []
    else if c == b'\\'
    then b'\\' ∷ b'\\' ∷ []
    else if c == 8
    then b'\\' ∷ b'b' ∷ []
    else if c == 12
    then b'\\' ∷ b'f' ∷ []
    else if c == b'\n'
    then b'\\' ∷ b'n' ∷ []
    else if c == b'\r'
    then b'\\' ∷ b'r' ∷ []
    else if c == b'\t'
    then b'\\' ∷ b't' ∷ []
    else c ∷ []

unfoldable pub escape_string : Bytes → Bytes
unfolding escape_byte
escape_string [] = []
escape_string (c ∷ s) = escape_byte c ++ escape_string s

unfoldable pub quoted : Bytes → Bytes
unfolding escape_string
quoted s = b'"' ∷ (escape_string s ++ b'"' ∷ [])

module _ (d : Double) where
  open d use {Carrier, is_whole, whole_text, fixed_text}

  -- The two `erase` calls drop the zeros at the end, then the dots.
  unfoldable pub number_text : Carrier → Bytes
  unfolding drop_while_end
  number_text x =
      if is_whole x
      then whole_text x
      else drop_while_end (λ c. c == b'.') (drop_while_end (λ c. c == b'0') (fixed_text x))

  unfoldable mutual
    unfolding quoted number_text

    pub to_text : JsonValue Carrier → Bytes
    to_text null = codes "null"
    to_text (boolean true) = codes "true"
    to_text (boolean false) = codes "false"
    to_text (number x) = number_text x
    to_text (string s) = quoted s
    to_text (array nil) = codes "[]"
    to_text (array (cons v vs)) = b'[' ∷ (to_text v ++ items_text vs)
    to_text (object end) = codes "{}"
    to_text (object (field k v fs)) = b'{' ∷ (quoted k ++ b':' ∷ (to_text v ++ fields_text fs))

    -- The rest of an array or object: a comma before each further entry, and the bracket.
    pub items_text : Items Carrier → Bytes
    items_text nil = b']' ∷ []
    items_text (cons v vs) = b',' ∷ (to_text v ++ items_text vs)

    pub fields_text : Fields Carrier → Bytes
    fields_text end = b'}' ∷ []
    fields_text (field k v fs) = b',' ∷ (quoted k ++ b':' ∷ (to_text v ++ fields_text fs))
