-- ===== src/Server/Routing.antt =====
-- `handle_request` of server.cpp and the handlers that it selects. `keep_alive`, a reference in the
-- source, is part of the result.
use web_server_http.Common.{
  Bool, true, false, [], ◌++◌, ◌&&◌, ◌||◌, none, some, if◌then◌else◌, is_empty, take, Bytes, codes,
  equal, contains, Try, returned, ◌>>=◌,
}
use web_server_http.FileHandler.{file_exists, read_file, get_mime_type}
use web_server_http.HttpRequest.{HttpRequest, get_header}
use web_server_http.Server.Api.{Environment, is_api_path, handle_api_request}
use web_server_http.Server.Response.{
  build_http_response, get_404_response, get_405_response, split_head, should_keep_alive,
}
use web_server_http.Server.State.{Server}

-- What a handler returns: the server after it, and the response with `keep_alive`, or an exception.
abbrev pub Handled : Type 0
Handled = Server × Try (Bytes × Bool)

abbrev pub keeping : Bool → Server × Try Bytes → Handled
keeping keep_alive (s, r) = (s, r >>= λ response. returned (response, keep_alive))

abbrev pub upgrade_response : Bytes
upgrade_response =
    codes "HTTP/1.1 101 Switching Protocols\r\n"
    ++ (codes "Connection: Upgrade\r\n" ++ (codes "Upgrade: h2c\r\n" ++ codes "\r\n"))

-- A response cut off behind its header.
unfoldable pub without_body : Bytes → Bytes
unfolding split_head
without_body response = elim (split_head response) [
  | none ↦ response
  | some (head, rest) ↦ head ++ take 4 rest
]

-- `response.insert(header_end, …)`.
unfoldable pub insert_at_header_end : Bytes → Bytes → Bytes
unfolding split_head
insert_at_header_end extra response = elim (split_head response) [
  | none ↦ response
  | some (head, rest) ↦ head ++ (extra ++ rest)
]

abbrev pub preflight_headers : Bytes
preflight_headers =
    codes "Access-Control-Allow-Methods: GET, POST, PUT, DELETE, OPTIONS\r\n"
    ++ (codes "Access-Control-Allow-Headers: Content-Type, Authorization, X-Requested-With\r\n"
        ++ codes "Access-Control-Max-Age: 86400\r\n")

module _ (env : Environment) where
  open env use {document_root, files, date, basic_dashboard, basic_admin_dashboard}

  unfoldable pub html_page : Server → Bytes → Bytes
  unfolding build_http_response
  html_page s content =
      build_http_response date s 200 (codes "OK") (codes "text/html") content false true

  -- A page of the document root, or the text that stands in for it.
  unfoldable pub page_or : Server → Bytes → Bytes → Bytes
  unfolding html_page file_exists read_file
  page_or s path basic =
      html_page s
        (if file_exists document_root files path then read_file document_root files path else basic)

  unfoldable pub handle_dashboard_request : Server → Bytes
  unfolding page_or
  handle_dashboard_request s = page_or s (codes "/dashboard.html") basic_dashboard

  unfoldable pub handle_admin_dashboard_request : Server → Bytes
  unfolding page_or
  handle_admin_dashboard_request s = page_or s (codes "/admin-dashboard.html") basic_admin_dashboard

  -- The end of `handle_get_request`: a file of the document root.
  unfoldable pub serve_file : Server → HttpRequest → Bool → Bytes × Bool
  serve_file s request keep_alive =
      let content = read_file document_root files request.path in
      if file_exists document_root files request.path
      then (if is_empty content then (get_404_response date s, false) else (
        build_http_response date s 200 (codes "OK")
            (get_mime_type
              (if equal request.path (codes "/") then codes "index.html" else request.path))
            content keep_alive false,
        keep_alive,
      ))
      else (get_404_response date s, false)

  unfoldable pub handle_get_request : Server → HttpRequest → Bool → Handled
  handle_get_request s request keep_alive =
      if equal request.path (codes "/admin-dashboard")
      then (s, returned (handle_admin_dashboard_request s, keep_alive))
      else if equal request.path (codes "/dashboard")
          || equal request.path (codes "/dashboard.html")
      then (s, returned (handle_dashboard_request s, keep_alive))
      else if is_api_path request.path
      then keeping keep_alive (handle_api_request env s request keep_alive)
      else (s, returned (serve_file s request keep_alive))

  unfoldable pub handle_post_request : Server → HttpRequest → Bool → Handled
  handle_post_request s request keep_alive =
      if is_api_path request.path
      then keeping keep_alive (handle_api_request env s request keep_alive)
      else (s, returned (get_405_response date s, false))

  unfoldable pub handle_options_request : Server → Bytes
  unfolding build_http_response insert_at_header_end
  handle_options_request s =
      insert_at_header_end preflight_headers
        (build_http_response date s 200 (codes "OK") (codes "text/plain") [] false true)

  abbrev pub strip_body : Handled → Handled
  strip_body (s, r) = (s, r >>= λ answer. returned (without_body answer.0, answer.1))

  unfoldable pub wants_h2c : Server → HttpRequest → Bool
  unfolding get_header equal contains
  wants_h2c s request =
      s.http2_enabled
      && (equal request.method (codes "GET")
          && (equal (get_header request (codes "upgrade")) (codes "h2c")
              && contains (codes "Upgrade") (get_header request (codes "connection"))))

  unfoldable pub handle_request : Server → HttpRequest → Handled
  handle_request s request =
      let keep_alive = should_keep_alive s request in
      if wants_h2c s request
      then (s, returned (upgrade_response, false))
      else if equal request.method (codes "GET")
      then handle_get_request s request keep_alive
      else if equal request.method (codes "POST")
      then handle_post_request s request keep_alive
      else if equal request.method (codes "OPTIONS")
      then (s, returned (handle_options_request s, keep_alive))
      else if equal request.method (codes "HEAD")
      then strip_body (handle_get_request s request keep_alive)
      else (s, returned (get_405_response date s, false))
