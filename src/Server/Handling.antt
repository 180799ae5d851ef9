-- ===== src/Server/Handling.antt =====
-- What holds of the server before `handle_request` of src/core/server.cpp holds of it afterwards, if
-- only `create_user` keeps it: no other way through the handlers changes the server.
use web_server_http.Common.{
  Bool, true, false, List, [], ◌∷◌, ◌≡◌, refl, ◌||◌, Bytes, codes, equal, is_empty, if◌then◌else◌,
  arith,
}
use web_server_http.Common.Dict.{bytes_key}
use web_server_http.HttpRequest.{HttpRequest, has_json_content_type}
use web_server_http.Json.Parse.{Parsed, done, thrown, exhausted}
use web_server_http.Json.Value.{JsonValue, is_object, as_string, get_object_item}
use web_server_http.Json.Parse
use web_server_http.Server.Api.{
  Environment, create_user, post_user, handle_users_api, handle_api_request, users_endpoint,
  post_parsed, is_api_path, api_endpoint, split_path,
}
use web_server_http.Server.Routing.{
  handle_get_request, handle_post_request, handle_request, wants_h2c,
}
use web_server_http.Server.Response.{should_keep_alive}
use web_server_http.Server.State.{Server}

module _ (P : Server → Type 0)
    (created : (s : Server) (name email : Bytes)
      → is_empty name ≡ false
      → is_empty email ≡ false
      → P s
      → P (create_user name email s).0)
    (env : Environment) where
  open env use {double}
  open double use {Carrier}

  -- A choice between two outcomes.
  kept_if :
      {A : Type 0} (b : Bool) (x y : Server × A)
      → (b ≡ true → P x.0)
      → (b ≡ false → P y.0)
      → P (if b then x else y).0
  kept_if true x y h k = h refl
  kept_if false x y h k = k refl

  post_user_keeps : (s : Server) (v : JsonValue Carrier) → P s → P (post_user env s v).0
  unfolding post_user
  post_user_keeps s v n =
      let name = as_string (get_object_item (codes "name") v) in
      let email = as_string (get_object_item (codes "email") v) in
      kept_if (is_empty name || is_empty email) _ _ (λ h. n)
        (λ h. created s name email (ground (arith, h)) (ground (arith, h)) n)

  post_parsed_keeps :
      (s : Server) (p : Parsed (JsonValue Carrier)) → P s → P (post_parsed env s p).0
  unfolding post_parsed
  post_parsed_keeps s (done v rest) n =
      kept_if (is_object v) _ _ (λ h. post_user_keeps s v n) (λ h. n)
  post_parsed_keeps s (thrown e) n = n
  post_parsed_keeps s exhausted n = n

  handle_users_api_keeps :
      (s : Server) (request : HttpRequest) → P s → P (handle_users_api env s request).0
  unfolding handle_users_api
  handle_users_api_keeps s request n =
      kept_if (equal request.method (codes "GET")) _ _ (λ h. n)
        (λ h.
          kept_if (equal request.method (codes "POST")) _ _
            (λ k.
              kept_if (has_json_content_type request) _ _
                (λ c. post_parsed_keeps s (Parse.parse double request.body) n) (λ c. n))
            (λ k. n))

  users_endpoint_keeps :
      (s : Server) (request : HttpRequest) (keep_alive : Bool) (more : List Bytes)
      → P s
      → P (users_endpoint env s request keep_alive more).0
  unfolding users_endpoint
  users_endpoint_keeps s request keep_alive [] n = handle_users_api_keeps s request n
  users_endpoint_keeps s request keep_alive (id ∷ []) n = n
  users_endpoint_keeps s request keep_alive (id ∷ x ∷ more) n = n

  api_endpoint_keeps :
      (s : Server) (request : HttpRequest) (keep_alive : Bool) (parts : List Bytes)
      → P s
      → P (api_endpoint env s request keep_alive parts).0
  unfolding api_endpoint
  api_endpoint_keeps s request keep_alive [] n = n
  api_endpoint_keeps s request keep_alive (x ∷ []) n = n
  api_endpoint_keeps s request keep_alive (x ∷ endpoint ∷ more) n =
      kept_if (equal endpoint (codes "docs")) _ _ (λ h. n)
        (λ h.
          kept_if (equal endpoint (codes "users")) _ _
            (λ k. users_endpoint_keeps s request keep_alive more n)
            (λ k. kept_if (equal endpoint (codes "stats")) _ _ (λ l. n) (λ l. n)))

  -- Every way of `handle_request`.
  handle_get_keeps :
      (s : Server) (request : HttpRequest) (keep_alive : Bool)
      → P s
      → P (handle_get_request env s request keep_alive).0
  unfolding handle_get_request handle_api_request
  handle_get_keeps s request keep_alive n =
      kept_if (equal request.path (codes "/admin-dashboard")) _ _ (λ h. n)
        (λ h.
          kept_if
            (equal request.path (codes "/dashboard")
              || equal request.path (codes "/dashboard.html"))
            _ _ (λ k. n)
            (λ k.
              kept_if (is_api_path request.path) _ _
                (λ l. api_endpoint_keeps s request keep_alive (split_path request.path) n)
                (λ l. n)))

  handle_post_keeps :
      (s : Server) (request : HttpRequest) (keep_alive : Bool)
      → P s
      → P (handle_post_request env s request keep_alive).0
  unfolding handle_post_request handle_api_request
  handle_post_keeps s request keep_alive n =
      kept_if (is_api_path request.path) _ _
        (λ l. api_endpoint_keeps s request keep_alive (split_path request.path) n) (λ l. n)

  pub handle_request_keeps :
      (s : Server) (request : HttpRequest) → P s → P (handle_request env s request).0
  unfolding handle_request
  handle_request_keeps s request n =
      let keep_alive = should_keep_alive s request in
      kept_if (wants_h2c env s request) _ _ (λ h. n)
        (λ h.
          kept_if (equal request.method (codes "GET")) _ _
            (λ a. handle_get_keeps s request keep_alive n)
            (λ a.
              kept_if (equal request.method (codes "POST")) _ _
                (λ b. handle_post_keeps s request keep_alive n)
                (λ b.
                  kept_if (equal request.method (codes "OPTIONS")) _ _ (λ c. n)
                    (λ c.
                      kept_if (equal request.method (codes "HEAD")) _ _
                        (λ d. handle_get_keeps s request keep_alive n) (λ d. n)))))
