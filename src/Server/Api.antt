-- ===== src/Server/Api.antt =====
-- The API endpoints of server.cpp.
use web_server_http.Common.{
  ℕ, ◌+◌, ◌-◌, ◌^◌, ◌%◌, ltb, Bool, true, false, List, [], ◌∷◌, ◌++◌, ◌||◌, Option, none, some,
  if◌then◌else◌, length, is_empty, Bytes, codes, equal, is_prefix, getlines, Try, returned, threw,
  ◌>>=◌, out_of_range, length_error,
}
use web_server_http.Common.Dict.{lookup, bytes_key}
use web_server_http.Common.Numbers.{to_string, stoi}
use web_server_http.FileHandler.{FileSystem}
use web_server_http.HttpRequest.{HttpRequest, has_json_content_type}
use web_server_http.Json.Parse.{Parsed, done, thrown, exhausted}
use web_server_http.Json.Parse
use web_server_http.Json.Responses.{
  build_success_response, build_error_response, build_user_response, build_users_list_response,
}
use web_server_http.Json.Value.{
  Double, JsonValue, number, object, end, is_object, as_string, get_object_item, set_object_item,
}
use web_server_http.Server.Response.{build_http_response}
use web_server_http.Server.State.{Server, user}

-- What the handlers use from outside: numbers, the files, the text of the date, the fixed HTML texts
-- of the server's own pages, and the numbers that the thread pool reports.
pub record Environment : Type 1 where
  pub double : Double
  pub document_root : Bytes
  pub files : FileSystem
  pub date : Bytes
  pub docs_html : Bytes
  pub basic_dashboard : Bytes
  pub basic_admin_dashboard : Bytes
  pub thread_count : ℕ
  pub queue_size : ℕ

-- The nonempty parts of a list.
unfoldable pub nonempty_parts : List Bytes → List Bytes
nonempty_parts [] = []
nonempty_parts (p ∷ ps) = if is_empty p then nonempty_parts ps else p ∷ nonempty_parts ps

unfoldable pub split_path : Bytes → List Bytes
unfolding nonempty_parts getlines
split_path path = nonempty_parts (getlines b'/' path)

unfoldable pub is_api_path : Bytes → Bool
unfolding is_prefix
is_api_path path = is_prefix (codes "/api") path

-- `std::to_string` of an `int`, given by its 32 bits.
unfoldable pub int_text : ℕ → Bytes
unfolding to_string
int_text n = if ltb n (2 ^ 31) then to_string n else b'-' ∷ to_string (2 ^ 32 - n)

unfoldable pub create_user : Bytes → Bytes → Server → Server × List (Bytes × Bytes)
unfolding int_text
create_user name email s =
    let new_user = user (int_text s.next_user_id) name email in
    (
      record s {
        users_data = s.users_data ++ new_user ∷ [];
        next_user_id = (s.next_user_id + 1) % 2 ^ 32;
      },
      new_user,
    )

-- `std::map::at`.
abbrev pub at_key : Bytes → List (Bytes × Bytes) → Try Bytes
at_key k m = elim (lookup k m) [ none ↦ threw out_of_range | some v ↦ returned v ]

-- The result of a parse; the third case stands for a parser out of steps.
abbrev pub of_parsed : {A : Type 0} → Parsed A → Try A
of_parsed (done a rest) = returned a
of_parsed (thrown e) = threw e
of_parsed exhausted = threw length_error

module _ (env : Environment) where
  open env use {double, date, docs_html, thread_count, queue_size}

  abbrev pub json_type : Bytes
  json_type = codes "application/json"

  unfoldable pub json_error : Server → ℕ → Bytes → Bytes → Bool → Bytes
  unfolding build_http_response build_error_response
  json_error s status status_text message keep_alive =
      build_http_response date s status status_text json_type
        (build_error_response double message status) keep_alive true

  unfoldable pub bad_request : Server → Bytes → Bytes
  unfolding json_error
  bad_request s message = json_error s 400 (codes "Bad Request") message false

  unfoldable pub method_not_allowed : Server → Bytes
  unfolding json_error
  method_not_allowed s =
      json_error s 405 (codes "Method Not Allowed") (codes "Method not allowed") false

  unfoldable pub json_ok : Server → Bytes → Bytes
  unfolding build_http_response
  json_ok s body = build_http_response date s 200 (codes "OK") json_type body true true

  -- The text that the 201 response parses again.
  unfoldable pub created_text : Bytes → Bytes → Bytes → Bytes
  created_text id name email =
      codes "{\"id\":"
      ++ (id
          ++ (codes ",\"name\":\""
              ++ (name ++ (codes "\",\"email\":\"" ++ (email ++ codes "\"}")))))

  -- The body of the 201 response.
  unfoldable pub created_body : List (Bytes × Bytes) → Try Bytes
  unfolding created_text build_success_response lookup
  created_body new_user = do
    id ← at_key (codes "id") new_user
    name ← at_key (codes "name") new_user
    email ← at_key (codes "email") new_user
    v ← of_parsed (Parse.parse double (created_text id name email))
    returned (build_success_response double (codes "User created successfully") (some v))

  -- `POST /api/users` from the extraction of the two fields on.
  unfoldable pub post_user : Server → JsonValue double.Carrier → Server × Try Bytes
  post_user s json_data =
      let name = as_string (get_object_item (codes "name") json_data) in
      let email = as_string (get_object_item (codes "email") json_data) in
      if is_empty name || is_empty email
      then (s, returned (bad_request s (codes "Name and email are required")))
      else let (s', new_user) = create_user name email s in
        (
          s',
          created_body new_user >>= λ body.
              returned
                (build_http_response date s' 201 (codes "Created") json_type body false true),
        )

  -- `POST /api/users` behind the parse of the body.
  unfoldable pub post_parsed : Server → Parsed (JsonValue double.Carrier) → Server × Try Bytes
  post_parsed s (done v rest) =
      if is_object v
      then post_user s v
      else (s, returned (bad_request s (codes "Invalid JSON data")))
  post_parsed s (thrown e) = (s, threw e)
  post_parsed s exhausted = (s, threw length_error)

  unfoldable pub handle_users_api : Server → HttpRequest → Server × Try Bytes
  handle_users_api s request =
      if equal request.method (codes "GET")
      then (s, returned (json_ok s (build_users_list_response double s.users_data)))
      else if equal request.method (codes "POST")
      then (if has_json_content_type request
          then post_parsed s (Parse.parse double request.body)
          else (s, returned (bad_request s (codes "Content-Type must be application/json"))))
      else (s, returned (method_not_allowed s))

  -- The loop over the users.
  unfoldable pub find_user :
      Bytes → List (List (Bytes × Bytes)) → Try (Option (List (Bytes × Bytes)))
  find_user user_id [] = returned none
  find_user user_id (u ∷ us) = do
    id ← at_key (codes "id") u
    let later = find_user user_id us
    if equal id user_id then returned (some u) else later

  unfoldable pub user_body : List (Bytes × Bytes) → Try Bytes
  user_body u = do
    id ← at_key (codes "id") u
    number_id ← stoi 10 id
    name ← at_key (codes "name") u
    email ← at_key (codes "email") u
    returned (build_user_response double number_id name email)

  unfoldable pub handle_user_api : Server → HttpRequest → Bytes → Try Bytes
  handle_user_api s request user_id =
      if equal request.method (codes "GET")
      then find_user user_id s.users_data >>= (λ found. elim found [
        | none ↦ returned (json_error s 404 (codes "Not Found") (codes "User not found") false)
        | some u ↦ user_body u >>= λ body. returned (json_ok s body)
      ])
      else returned (method_not_allowed s)

  -- The counts are cast to `int`; they are below 2 ^ 31 here.
  unfoldable pub handle_server_stats_api : Server → HttpRequest → Bytes
  unfolding set_object_item build_success_response json_ok method_not_allowed equal
  handle_server_stats_api s request =
      if equal request.method (codes "GET")
      then json_ok s (build_success_response double (codes "Server statistics") (some stats))
      else method_not_allowed s
    where
      count : ℕ → JsonValue double.Carrier
      count n = number (double.of_int (false, n))

      stats : JsonValue double.Carrier
      stats = set_object_item (codes "queue_size") (count queue_size) (
          set_object_item (codes "thread_count") (count thread_count) (
            set_object_item (codes "active_connections") (count (length s.connection_timestamps))
              (set_object_item (codes "total_requests") (count s.total_requests) (object end))))

  unfoldable pub handle_api_docs : Server → Bytes
  unfolding build_http_response
  handle_api_docs s =
      build_http_response date s 200 (codes "OK") (codes "text/html") docs_html true true

  unfoldable pub endpoint_not_found : Server → Bool → Bytes
  endpoint_not_found s keep_alive =
      json_error s 404 (codes "Not Found") (codes "API endpoint not found") keep_alive

  -- The paths under `/api/users`.
  unfoldable pub users_endpoint : Server → HttpRequest → Bool → List Bytes → Server × Try Bytes
  users_endpoint s request keep_alive [] = handle_users_api s request
  users_endpoint s request keep_alive (id ∷ []) = (s, handle_user_api s request id)
  users_endpoint s request keep_alive _ = (s, returned (endpoint_not_found s keep_alive))

  -- `handle_api_request` on the parts of the path.
  unfoldable pub api_endpoint : Server → HttpRequest → Bool → List Bytes → Server × Try Bytes
  api_endpoint s request keep_alive (_ ∷ endpoint ∷ more) =
      if equal endpoint (codes "docs")
      then (s, returned (handle_api_docs s))
      else if equal endpoint (codes "users")
      then users_endpoint s request keep_alive more
      else if equal endpoint (codes "stats")
      then (s, returned (handle_server_stats_api s request))
      else (s, returned (endpoint_not_found s keep_alive))
  api_endpoint s request keep_alive _ =
      (s, returned (json_error s 400 (codes "Bad Request") (codes "Invalid API path") keep_alive))

  unfoldable pub handle_api_request : Server → HttpRequest → Bool → Server × Try Bytes
  handle_api_request s request keep_alive =
      api_endpoint s request keep_alive (split_path request.path)
