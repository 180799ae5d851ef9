-- ===== src/Server/Response.antt =====
-- The response builders of server.cpp. The date line's text is a parameter.
use web_server_http.Common.{
  ℕ, Bool, true, false, [], ◌∷◌, ◌++◌, ◌&&◌, Option, none, some, if◌then◌else◌, length, Bytes,
  codes, contains, is_prefix, equal,
}
use web_server_http.Common.Numbers.{to_string}
use web_server_http.HttpRequest.{HttpRequest, get_header}
use web_server_http.Server.State.{Server}

abbrev pub crlf : Bytes
crlf = codes "\r\n"

-- "\r\n\r\n", which ends the header.
abbrev pub blank_line : Bytes
blank_line = codes "\r\n\r\n"

-- A status code, its text, and the lines of a header that a caller chooses.
module _ (date : Bytes) where
  unfoldable pub connection_lines : Server → Bool → Bytes
  unfolding to_string
  connection_lines s keep_alive =
      if keep_alive && s.keep_alive_enabled
      then codes "Connection: keep-alive\r\n"
        ++ (codes "Keep-Alive: timeout=" ++ (to_string s.connection_timeout ++ crlf))
      else codes "Connection: close\r\n"

  unfoldable pub cors_lines : Bool → Bytes
  cors_lines add_cors =
      if add_cors
      then codes "Access-Control-Allow-Origin: *\r\n"
        ++ codes "Access-Control-Allow-Credentials: true\r\n"
      else []

  -- All that `build_http_response` writes before the empty line.
  unfoldable pub header_lines : Server → ℕ → Bytes → Bytes → ℕ → Bool → Bool → Bytes
  unfolding connection_lines cors_lines to_string
  header_lines s status_code status_text content_type body_length keep_alive add_cors =
      codes "HTTP/1.1 "
      ++ (to_string status_code
          ++ (codes " "
              ++ (status_text
                  ++ (crlf
                      ++ (codes "Server: wbeserver-http/1.0\r\n"
                          ++ (codes "Content-Type: "
                              ++ (content_type
                                  ++ (crlf
                                      ++ (codes "Content-Length: "
                                          ++ (to_string body_length
                                              ++ (crlf
                                                  ++ (connection_lines s keep_alive
                                                      ++ (cors_lines add_cors
                                                          ++ (codes "Date: "
                                                            ++ (date ++ crlf)))))))))))))))

  unfoldable pub build_http_response : Server → ℕ → Bytes → Bytes → Bytes → Bool → Bool → Bytes
  unfolding header_lines
  build_http_response s status_code status_text content_type body keep_alive add_cors =
      header_lines s status_code status_text content_type (length body) keep_alive add_cors
      ++ (crlf ++ body)

  -- The page of `get_error_response`.
  unfoldable pub error_page : ℕ → Bytes → Bytes → Bytes
  unfolding to_string
  error_page status_code status_text message =
      let title = to_string status_code ++ (codes " " ++ status_text) in
      codes "<!DOCTYPE html>\n<html><head><title>"
      ++ (title
          ++ (codes "</title></head>\n"
              ++ (codes
                    "<body style='font-family: Arial, sans-serif; text-align: center; margin-top: 50px;'>\n"
                  ++ (codes "<h1>"
                      ++ (title
                          ++ (codes "</h1>\n<p>"
                              ++ (message
                                  ++ (codes
                                      "</p>\n<hr><small>wbeserver-http/1.0</small>\n</body></html>"))))))))

  unfoldable pub get_error_response : Server → ℕ → Bytes → Bytes → Bool → Bytes
  unfolding error_page build_http_response
  get_error_response s status_code status_text message add_cors =
      build_http_response s status_code status_text (codes "text/html")
        (error_page status_code status_text message) false add_cors

  unfoldable pub get_404_response : Server → Bytes
  unfolding get_error_response
  get_404_response s =
      get_error_response s 404 (codes "Not Found")
        (codes "The requested file was not found on this server.") false

  unfoldable pub get_400_response : Server → Bytes
  unfolding get_error_response
  get_400_response s =
      get_error_response s 400 (codes "Bad Request")
        (codes "The request could not be understood by the server.") false

  unfoldable pub get_405_response : Server → Bytes
  unfolding get_error_response
  get_405_response s =
      get_error_response s 405 (codes "Method Not Allowed")
        (codes "The requested method is not allowed for this resource.") false

-- `find("\r\n\r\n")` with the text before it and the text from it on.
unfoldable pub split_head : Bytes → Option (Bytes × Bytes)
unfolding is_prefix
split_head [] = none
split_head (c ∷ s) =
    let later = split_head s in
    if is_prefix blank_line (c ∷ s)
    then some ([], c ∷ s)
    else elim later [ none ↦ none | some (a, b) ↦ some (c ∷ a, b) ]

-- `extract_status_code`: the first of these texts that stands anywhere in the response.
unfoldable pub extract_status_code : Bytes → ℕ
unfolding contains
extract_status_code response =
    if contains (codes "200 OK") response
    then 200
    else if contains (codes "201 Created") response
    then 201
    else if contains (codes "400 Bad Request") response
    then 400
    else if contains (codes "404 Not Found") response
    then 404
    else if contains (codes "405 Method Not Allowed") response
    then 405
    else if contains (codes "500 Internal Server Error") response
    then 500
    else 200

unfoldable pub should_keep_alive : Server → HttpRequest → Bool
unfolding equal get_header
should_keep_alive s request =
    if s.keep_alive_enabled
    then (if equal request.version (codes "HTTP/1.1")
        then (if equal (get_header request (codes "connection")) (codes "close")
            then false
            else true)
        else false)
    else false
