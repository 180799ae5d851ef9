-- ===== src/Json/Tests.antt =====
-- Runs of the parser, and the theorems at concrete inputs. The numbers of these runs have no digits
-- behind the point.
use web_server_http.Common.{ℕ, Bool, true, false, [], List, refl, ◌∷◌, ◌≡◌, ◌≢◌, codes, Bytes}
use web_server_http.Common.Dict.{bytes_less}
use web_server_http.Common.Numbers.{stoi, to_string}
use web_server_http.Json.Parse.{parse, after_number, exhausted, done}
use web_server_http.Json.Print.{number_text, to_text}
use web_server_http.Json.Termination.{parse-ne-exhausted}
use web_server_http.Json.ResponsesRead.{success_body, user_items, parse-build_users_list_response}
use web_server_http.Json.Responses.{build_users_list_response}
use web_server_http.Json.RoundTrip.{Storable, parse-to_text}
use web_server_http.Json.Value.{
  Double, JsonValue, object, field, end, boolean, null, array, cons, nil, number, string,
}

abbrev whole_numbers : Double
whole_numbers = record {
  Carrier = Bool × ℕ;
  stod = stoi 10;
  of_int = λ n. n;
  is_whole = λ n. true;
  whole_text = λ n. to_string n.1;
  fixed_text = λ n. to_string n.1;
}

abbrev flags : JsonValue (Bool × ℕ)
flags = object (field (codes "a") (boolean true) (field (codes "c") null end))

parse-ne-exhausted_example : parse whole_numbers (codes "{\"a\":[1,{\"b\":tru") ≢ exhausted
parse-ne-exhausted_example = parse-ne-exhausted whole_numbers (codes "{\"a\":[1,{\"b\":tru")

abbrev nested : JsonValue (Bool × ℕ)
nested = object (
    field (codes "a\"") (array (cons (number (false, 42)) (cons flags (cons (array nil) nil))))
      (field (codes "b") (string (codes "x\ty")) end))

parse-to_text_example : parse whole_numbers (to_text whole_numbers nested) ≡ done nested []
unfolding Storable bytes_less stoi to_string number_text after_number
parse-to_text_example =
    parse-to_text whole_numbers nested
      (refl, (((refl, refl, refl), ((refl, (tt, (tt, tt))), (tt, tt))), (tt, tt)))

abbrev two_users : List (List (Bytes × Bytes))
two_users =
    ((codes "id", codes "7") ∷ (codes "name", codes "Ann") ∷ [])
    ∷ ((codes "id", codes "8") ∷ (codes "note", codes "\"") ∷ [])
    ∷ []

parse-build_users_list_response_example :
    parse whole_numbers (build_users_list_response whole_numbers two_users)
    ≡ done
        (success_body whole_numbers
          (codes "Users list retrieved")
          (array (user_items whole_numbers two_users)))
        []
unfolding bytes_less
parse-build_users_list_response_example =
    parse-build_users_list_response whole_numbers two_users refl
