-- ===== src/Json/ResponsesRead.antt =====
-- `parse` on the response bodies that `JsonHandler` builds.
use web_server_http.Common.{
  ℕ, Bool, Bool-cases, inl, inr, true, false, List, [], ◌∷◌, ◌≡◌, refl, ap, ◌∙◌, some, Bytes, codes,
  equal, ◌&&◌, arith,
}
use web_server_http.Common.Dict.{bytes_less}
use web_server_http.Json.Ordered.{increasing, set_field-increasing, set_fields, set_fields-append}
use web_server_http.Json.Parse.{parse, done}
use web_server_http.Json.Responses.{
  build_success_response, user_value, build_user_response, user_fields, users_array,
  build_users_list_response, build_error_response,
}
use web_server_http.Json.Pieces.{push_items, push_items-nil}
use web_server_http.Json.Reading.{Readable}
use web_server_http.Json.RoundTrip.{Storable, StorableItems, StorableFields, parse-to_text}
use web_server_http.Json.Value.{
  Double, JsonValue, boolean, number, string, array, object, Items, nil, cons, Fields, end, field,
  push_item, set_field, set_object_item, add_to_array,
}

module _ (d : Double) where
  open d use {Carrier, of_int}

  push_item-Storable :
      (xs : Items Carrier) (v : JsonValue Carrier)
      → StorableItems d xs
      → Storable d v
      → StorableItems d (push_item xs v)
  unfolding push_item Storable
  push_item-Storable nil v h st = (st, tt)
  push_item-Storable (cons w xs) v h st = (h.0, push_item-Storable xs v h.1 st)

  set_field-Storable :
      (k : Bytes) (v : JsonValue Carrier) (fs : Fields Carrier)
      → StorableFields d fs
      → Storable d v
      → StorableFields d (set_field k v fs)
  unfolding set_field Storable
  set_field-Storable k v end h st = (st, tt)
  set_field-Storable k v (field j w fs) h st = elim (Bool-cases (equal j k)) [
    | inl e ↦ rw e (st, h.1)
    | inr e ↦ elim (Bool-cases (bytes_less k j)) [
      | inl l ↦ rw (e, l) (st, (h.0, h.1))
      | inr l ↦ rw (e, l) (h.0, set_field-Storable k v fs h.1 st)
    ]
  ]

  -- Setting an item of a storable object gives a storable object.
  pub set_object_item-Storable :
      (k : Bytes) (v o : JsonValue Carrier)
      → Storable d o
      → Storable d v
      → Storable d (set_object_item k v o)
  unfolding set_object_item Storable
  set_object_item-Storable k v (object fs) h st =
      (set_field-increasing k v fs h.0, set_field-Storable k v fs h.1 st)
  set_object_item-Storable k v _ h st = (refl, (st, tt))

  -- The object that `build_success_response` writes.
  abbrev pub success_body : Bytes → JsonValue Carrier → JsonValue Carrier
  success_body message v = object (
      field (codes "data") v
        (field (codes "message") (string message) (field (codes "success") (boolean true) end)))

  -- The body of a success response is parsed to an object with the data, the message and the flag.
  parse-build_success_response :
      (message : Bytes) (v : JsonValue Carrier)
      → Storable d v
      → parse d (build_success_response d message (some v)) ≡ done (success_body message v) []
  unfolding build_success_response Storable set_object_item set_field equal bytes_less
  parse-build_success_response message v st =
      parse-to_text d (success_body message v) (refl, (st, (tt, (tt, tt))))

  pub parse-build_user_response :
      (id : Bool × ℕ) (name email : Bytes)
      → Readable d (of_int id)
      → parse d (build_user_response d id name email)
        ≡ done
            (success_body (codes "User data retrieved") (
              object (
                field (codes "email") (string email) (
                  field
                    (codes "id")
                    (number (of_int id))
                    (field (codes "name") (string name) end)))))
            []
  unfolding build_user_response user_value set_object_item set_field equal bytes_less Storable
  parse-build_user_response id name email st =
      parse-build_success_response (codes "User data retrieved") (user_value d id name email)
        (refl, (tt, (st, (tt, tt))))

  pub parse-build_error_response :
      (message : Bytes) (code : ℕ)
      → Readable d (of_int (false, code))
      → parse d (build_error_response d message code)
        ≡ done
            (object (
              field (codes "code") (number (of_int (false, code))) (
                field
                  (codes "error")
                  (string message)
                  (field (codes "success") (boolean false) end))))
            []
  unfolding build_error_response set_object_item set_field equal bytes_less Storable
  parse-build_error_response message code st = parse-to_text d _ (refl, (st, (tt, (tt, tt))))

  -- The fields of a user as they stand, each with its text.
  abbrev pub plain_fields : List (Bytes × Bytes) → Fields Carrier
  plain_fields [] = end
  plain_fields ((k, v) ∷ m) = field k (string v) (plain_fields m)

  -- The keys of each user increase, as the keys of a std::map do.
  abbrev pub in_key_order : List (List (Bytes × Bytes)) → Bool
  in_key_order [] = true
  in_key_order (u ∷ us) = increasing (plain_fields u) && in_key_order us

  -- One object for each user, in the order of the list.
  abbrev pub user_items : List (List (Bytes × Bytes)) → Items Carrier
  user_items [] = nil
  user_items (u ∷ us) = cons (object (plain_fields u)) (user_items us)

  user_fields-set_fields :
      (fs : Fields Carrier) (u : List (Bytes × Bytes))
      → user_fields d fs u ≡ set_fields fs (plain_fields u)
  unfolding user_fields
  user_fields-set_fields fs [] = refl
  user_fields-set_fields fs ((k, v) ∷ m) = user_fields-set_fields (set_field k (string v) fs) m

  user_fields-plain :
      (u : List (Bytes × Bytes))
      → increasing (plain_fields u) ≡ true
      → user_fields d end u ≡ plain_fields u
  user_fields-plain u h = user_fields-set_fields end u ∙ set_fields-append end (plain_fields u) h

  users_array-push_items :
      (xs : Items Carrier) (users : List (List (Bytes × Bytes)))
      → in_key_order users ≡ true
      → users_array d (array xs) users ≡ array (push_items xs (user_items users))
  unfolding users_array add_to_array
  users_array-push_items xs [] h = refl
  users_array-push_items xs (u ∷ us) h =
      let (first, rest) : (increasing (plain_fields u) ≡ true) × (in_key_order us ≡ true) =
        ground (arith, h) in
      ap (λ fs. users_array d (array (push_item xs (object fs))) us) (user_fields-plain u first)
      ∙ users_array-push_items (push_item xs (object (plain_fields u))) us rest

  plain_fields-Storable : (u : List (Bytes × Bytes)) → StorableFields d (plain_fields u)
  unfolding Storable
  plain_fields-Storable [] = tt
  plain_fields-Storable ((k, v) ∷ m) = (tt, plain_fields-Storable m)

  user_items-Storable :
      (users : List (List (Bytes × Bytes)))
      → in_key_order users ≡ true
      → StorableItems d (user_items users)
  unfolding Storable
  user_items-Storable [] h = tt
  user_items-Storable (u ∷ us) h =
      let (first, rest) : (increasing (plain_fields u) ≡ true) × (in_key_order us ≡ true) =
        ground (arith, h) in
      ((first, plain_fields-Storable u), user_items-Storable us rest)

  -- The users list, whatever texts the users' fields hold, where the keys of each user increase, as in
  -- a std::map: a client reads one object for each user, in order, with the user's fields as they
  -- stand, and with the message and the success flag.
  pub parse-build_users_list_response :
      (users : List (List (Bytes × Bytes)))
      → in_key_order users ≡ true
      → parse d (build_users_list_response d users)
        ≡ done (success_body (codes "Users list retrieved") (array (user_items users))) []
  unfolding build_users_list_response Storable
  parse-build_users_list_response users h =
      let e : users_array d (array nil) users ≡ array (user_items users) =
        users_array-push_items nil users h ∙ ap array (push_items-nil (user_items users)) in
      ap (λ v. parse d (build_success_response d (codes "Users list retrieved") (some v))) e
      ∙ parse-build_success_response (codes "Users list retrieved") (array (user_items users))
          (user_items-Storable users h)
