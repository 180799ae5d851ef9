-- ===== src/Json/Responses.antt =====
-- The response bodies that `JsonHandler` builds.
use web_server_http.Common.{ℕ, Bool, true, false, List, [], ◌∷◌, Option, none, some, Bytes, codes}
use web_server_http.Json.Print.{to_text}
use web_server_http.Json.Value.{
  Double, JsonValue, boolean, number, string, array, object, nil, Fields, end, set_field,
  set_object_item, add_to_array,
}

module _ (d : Double) where
  open d use {Carrier, of_int}

  unfoldable pub build_success_response : Bytes → Option (JsonValue Carrier) → Bytes
  unfolding set_object_item to_text
  build_success_response message given =
      let base =
        set_object_item (codes "message") (string message)
          (set_object_item (codes "success") (boolean true) (object end)) in
      to_text d (elim given [ none ↦ base | some v ↦ set_object_item (codes "data") v base ])

  unfoldable pub build_error_response : Bytes → ℕ → Bytes
  unfolding set_object_item to_text
  build_error_response message code = to_text d (
      set_object_item (codes "code") (number (of_int (false, code))) (
        set_object_item (codes "error") (string message)
          (set_object_item (codes "success") (boolean false) (object end))))

  unfoldable pub build_api_response : Option (JsonValue Carrier) → Bytes
  unfolding build_error_response to_text
  build_api_response none = build_error_response (codes "No data provided") 500
  build_api_response (some v) = to_text d v

  unfoldable pub user_value : Bool × ℕ → Bytes → Bytes → JsonValue Carrier
  unfolding set_object_item
  user_value id name email = set_object_item (codes "email") (string email) (
      set_object_item (codes "name") (string name)
        (set_object_item (codes "id") (number (of_int id)) (object end)))

  unfoldable pub build_user_response : Bool × ℕ → Bytes → Bytes → Bytes
  unfolding user_value build_success_response
  build_user_response id name email =
      build_success_response (codes "User data retrieved") (some (user_value id name email))

  -- One user of the list: a string for each field of the map.
  unfoldable pub user_fields : Fields Carrier → List (Bytes × Bytes) → Fields Carrier
  unfolding set_field
  user_fields fs [] = fs
  user_fields fs ((k, v) ∷ m) = user_fields (set_field k (string v) fs) m

  unfoldable pub users_array : JsonValue Carrier → List (List (Bytes × Bytes)) → JsonValue Carrier
  unfolding add_to_array user_fields
  users_array arr [] = arr
  users_array arr (u ∷ us) = users_array (add_to_array arr (object (user_fields end u))) us

  unfoldable pub build_users_list_response : List (List (Bytes × Bytes)) → Bytes
  unfolding users_array build_success_response
  build_users_list_response users =
      build_success_response (codes "Users list retrieved") (some (users_array (array nil) users))
