-- ===== src/Json/Value.antt =====
-- class JsonValue of include/handlers/json_handler.h. A value is only ever filled in for the type that
-- it has, so a value is a sum; the fields of an object are in key order, as in the `std::map`.
use web_server_http.Common.{
  ℕ, Bool, true, false, List, [], ◌∷◌, Option, none, some, if◌then◌else◌, Bytes, equal, Try,
}
use web_server_http.Common.Dict.{bytes_less}

-- What the code uses of `double`: `stod`, the conversion from `int` (a sign and a magnitude), the test
-- `floor(x) == x`, and the texts of `(long long)x` and of `fixed << setprecision(6)`.
pub record Double : Type 1 where
  pub Carrier : Type 0
  pub stod : Bytes → Try Carrier
  pub of_int : Bool × ℕ → Carrier
  pub is_whole : Carrier → Bool
  pub whole_text : Carrier → Bytes
  pub fixed_text : Carrier → Bytes

mutual
  pub data JsonValue (N : Type 0) : Type 0 where
    null : JsonValue N
    boolean : Bool → JsonValue N
    number : N → JsonValue N
    string : Bytes → JsonValue N
    array : Items N → JsonValue N
    object : Fields N → JsonValue N

  pub data Items (N : Type 0) : Type 0 where
    nil : Items N
    cons : JsonValue N → Items N → Items N

  pub data Fields (N : Type 0) : Type 0 where
    end : Fields N
    field : Bytes → JsonValue N → Fields N → Fields N

module _ {N : Type 0} where
  unfoldable pub is_null : JsonValue N → Bool
  is_null null = true
  is_null _ = false

  unfoldable pub is_object : JsonValue N → Bool
  is_object (object fs) = true
  is_object _ = false

  -- `as_string`: the member is empty unless the value is a string.
  unfoldable pub as_string : JsonValue N → Bytes
  as_string (string s) = s
  as_string _ = []

  -- `push_back` on the array.
  unfoldable pub push_item : Items N → JsonValue N → Items N
  push_item nil v = cons v nil
  push_item (cons w xs) v = cons w (push_item xs v)

  unfoldable pub add_to_array : JsonValue N → JsonValue N → JsonValue N
  unfolding push_item
  add_to_array (array xs) v = array (push_item xs v)
  add_to_array _ v = array (cons v nil)

  unfoldable pub set_field : Bytes → JsonValue N → Fields N → Fields N
  set_field k v end = field k v end
  set_field k v (field j w fs) =
      if equal j k
      then field k v fs
      else if bytes_less k j
      then field k v (field j w fs)
      else field j w (set_field k v fs)

  unfoldable pub find_field : Bytes → Fields N → Option (JsonValue N)
  find_field k end = none
  find_field k (field j w fs) = if equal j k then some w else find_field k fs

  unfoldable pub set_object_item : Bytes → JsonValue N → JsonValue N → JsonValue N
  unfolding set_field
  set_object_item k v (object fs) = object (set_field k v fs)
  set_object_item k v _ = object (field k v end)

  unfoldable pub get_object_item : Bytes → JsonValue N → JsonValue N
  unfolding find_field
  get_object_item k (object fs) = elim (find_field k fs) [ none ↦ null | some v ↦ v ]
  get_object_item k _ = null

  unfoldable pub has_key : Bytes → JsonValue N → Bool
  unfolding find_field
  has_key k (object fs) = elim (find_field k fs) [ none ↦ false | some v ↦ true ]
  has_key k _ = false

  unfoldable pub field_names : Fields N → List Bytes
  field_names end = []
  field_names (field k v fs) = k ∷ field_names fs

  unfoldable pub get_object_keys : JsonValue N → List Bytes
  unfolding field_names
  get_object_keys (object fs) = field_names fs
  get_object_keys _ = []
