-- ===== src/Json/Objects.antt =====
-- The fields of an object in include/handlers/json_handler.h.
use web_server_http.Common.{
  Bool, true, false, ◌≡◌, refl, ap, ◌∙◌, Bytes, equal, equal_iff, Option, none, some, if◌then◌else◌,
  arith,
}
use web_server_http.Json.Value.{
  JsonValue, null, boolean, number, string, array, object, Fields, end, field, set_field,
  find_field, set_object_item, get_object_item,
}

module _ {N : Type 0} where
  find_field-set_field :
      (k j : Bytes) (v : JsonValue N) (fs : Fields N)
      → find_field j (set_field k v fs) ≡ (if equal k j then some v else find_field j fs)
  unfolding find_field set_field
  find_field-set_field k j v end = refl
  find_field-set_field k j v (field i w fs) =
      ground (arith, equal_iff i k, equal_iff i j, equal_iff k j, find_field-set_field k j v fs)

  abbrev or_null : Option (JsonValue N) → JsonValue N
  or_null none = null
  or_null (some v) = v

  or_null-if :
      (v : JsonValue N) (o : Option (JsonValue N)) (b : Bool)
      → or_null (if b then some v else o) ≡ (if b then v else or_null o)
  or_null-if v o true = refl
  or_null-if v o false = refl

  -- After `set_object_item`, whatever the value was before, the key has the new value, and every other
  -- key has what it had.
  pub get_object_item-set_object_item :
      (k j : Bytes) (v o : JsonValue N)
      → get_object_item j (set_object_item k v o) ≡ (if equal k j then v else get_object_item j o)
  unfolding get_object_item set_object_item
  get_object_item-set_object_item k j v null = or_null-if v none (equal k j)
  get_object_item-set_object_item k j v (boolean b) = or_null-if v none (equal k j)
  get_object_item-set_object_item k j v (number n) = or_null-if v none (equal k j)
  get_object_item-set_object_item k j v (string s) = or_null-if v none (equal k j)
  get_object_item-set_object_item k j v (array xs) = or_null-if v none (equal k j)
  get_object_item-set_object_item k j v (object fs) =
      ap or_null (find_field-set_field k j v fs) ∙ or_null-if v (find_field j fs) (equal k j)
