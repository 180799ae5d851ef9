-- ===== src/Server/Tests.antt =====
-- The theorems on the server at concrete inputs.
use Prim.{tt}
use web_server_http.Common.{
  getlines, length, drop_while, drop_while_end, ℕ, equal, returned, Bool, true, false, List, [],
  ◌∷◌, ◌++◌, ◌&&◌, ◌≡◌, ◌↔◌, refl, none, some, if◌then◌else◌, Bytes, codes, contains, is_prefix,
  arith,
}
use web_server_http.Common.Dict.{lookup, nat_key}
use web_server_http.Common.Numbers.{stoi, to_string}
use web_server_http.Json.Value.{Double}
use web_server_http.Server.Alpn.{alpn_select_callback}
use web_server_http.Server.AlpnChoice.{offer, offers, alpn_select_callback-offer}
use web_server_http.HttpRequest.{
  HttpRequest, new_request, ended, parse_headers, get_header, get_content_length, trim,
}
use web_server_http.Json.Responses.{build_user_response}
use web_server_http.Server.Api.{Environment, create_user, handle_user_api, json_ok}
use web_server_http.Server.Fetching.{handle_user_api-create_user}
use web_server_http.Server.Io.{
  ReadEvent, received, select_timeout, sent, send_failed, all_sent, Round, complete,
  read_request_with_timeout, send_response_safe,
}
use web_server_http.Server.Reading.{Finished, read_request-Finished}
use web_server_http.Server.Response.{build_http_response}
use web_server_http.Server.ResponseRead.{behind_first, build_http_response-read}
use web_server_http.Server.Sending.{send_response_exact}
use web_server_http.Server.State.{Server, new_server, manage_connections}
use web_server_http.Server.Sweep.{distinct, listed, too_old, manage_connections_lem}
use web_server_http.Server.Api.{int_text}
use web_server_http.Server.Users.{Numbered, UserIds}

abbrev pub whole_numbers : Double
unfolding stoi to_string
whole_numbers = record {
  Carrier = Bool × ℕ;
  stod = stoi 10;
  of_int = λ n. n;
  is_whole = λ n. true;
  whole_text = λ n. to_string n.1;
  fixed_text = λ n. to_string n.1;
}

abbrev pub environment : Environment
environment = record {
  double = whole_numbers;
  document_root = codes "./public";
  files = record { is_regular = λ p. false; contents = λ p. none; size = λ p. none };
  date = codes "Mon, 01 Jan 2024 00:00:00 GMT";
  docs_html = codes "docs";
  basic_dashboard = codes "dashboard";
  basic_admin_dashboard = codes "admin";
  thread_count = 4;
  queue_size = 0;
}

-- A hash that keeps its text.
abbrev pub same_text : Bytes → Bytes
same_text s = s

pub new_server-Numbered : Numbered new_server
unfolding UserIds int_text to_string
new_server-Numbered = (
  (
    (codes "John Doe", codes "john.doe@example.com", refl, refl, refl),
    (
      (codes "Jane Smith", codes "jane.smith@example.com", refl, refl, refl),
      ((codes "Alice Johnson", codes "alice.johnson@example.com", refl, refl, refl), tt),
    ),
  ),
  refl,
)

abbrev pub posts_a_user : Round
posts_a_user = record {
  request_text = some (
      codes
        "POST /api/users HTTP/1.1\r\nContent-Type: application/json\r\n\r\n{\"name\":\"A\",\"email\":\"a@b\"}");
  now = 1;
  duration = 2;
  upgrade_sent = false;
  g_shutdown_requested = false;
}

abbrev in_two_parts : List ReadEvent
in_two_parts = received (codes "GET / HTTP/1.1\r\n") ∷ select_timeout ∷ received (codes "\r\n") ∷ []

in_two_parts-complete :
    read_request_with_timeout [] in_two_parts ≡ complete (codes "GET / HTTP/1.1\r\n\r\n")
unfolding read_request_with_timeout contains is_prefix
in_two_parts-complete = refl

read_request-Finished_example : Finished [] in_two_parts (codes "GET / HTTP/1.1\r\n\r\n")
read_request-Finished_example =
    read_request-Finished [] in_two_parts (codes "GET / HTTP/1.1\r\n\r\n") (omega arith)
      in_two_parts-complete

send_response_exact_example :
    (rest : Bytes) × ((send_response_safe false (codes "abc") (sent 2 ∷ send_failed ∷ [])).1 ++ rest
      ≡ codes "abc")
    × (((send_response_safe false (codes "abc") (sent 2 ∷ send_failed ∷ [])).0 ≡ all_sent)
        ↔ (rest ≡ []))
send_response_exact_example = send_response_exact (codes "abc") (sent 2 ∷ send_failed ∷ [])

alpn_select_callback-offer_example :
    alpn_select_callback true (offer (codes "http/1.1" ∷ codes "h2" ∷ [])) ≡ (
      if true && offers (codes "h2") (codes "http/1.1" ∷ codes "h2" ∷ [])
      then some (codes "h2")
      else if offers (codes "http/1.1") (codes "http/1.1" ∷ codes "h2" ∷ [])
      then some (codes "http/1.1")
      else none)
alpn_select_callback-offer_example =
    alpn_select_callback-offer true (codes "http/1.1" ∷ codes "h2" ∷ [])

-- Ten and a half seconds after the start of the clock, socket 4 was last used five and a half seconds
-- ago, and socket 5 ten seconds ago.
abbrev kept_alive : Server
kept_alive = record new_server {
  keep_alive_enabled = true;
  connection_timestamps = (4, 5000000000) ∷ (5, 500000000) ∷ [];
  sockets = 4 ∷ 5 ∷ [];
}

manage_connections_lem_example :
    let (after, closed) = manage_connections false true 10500000000 kept_alive in
    let old = too_old 10500000000 5 (lookup 5 kept_alive.connection_timestamps) in
    (listed 5 closed ≡ old)
    × (lookup 5 after.connection_timestamps
        ≡ (if old then none else lookup 5 kept_alive.connection_timestamps))
    × (listed 5 after.sockets ≡ (if old then false else listed 5 kept_alive.sockets))
unfolding distinct lookup
manage_connections_lem_example = manage_connections_lem kept_alive 10500000000 5 refl refl

abbrev get_request : HttpRequest
get_request = record new_request { method = codes "GET" }

handle_user_api-create_user_example :
    let s' = (create_user (codes "A") (codes "a@b") new_server).0 in
    handle_user_api environment s' get_request (to_string 4)
    ≡ returned (
        json_ok environment s'
          (build_user_response whole_numbers (false, 4) (codes "A") (codes "a@b")))
unfolding equal
handle_user_api-create_user_example =
    handle_user_api-create_user environment new_server (codes "A") (codes "a@b") get_request
      new_server-Numbered (omega arith) refl

build_http_response-read_example :
    (read : HttpRequest) × (parse_headers new_request (
        behind_first (
          getlines b'\n' (
            build_http_response
              (codes "today")
              new_server
              200
              (codes "OK")
              (codes "text/html")
              (codes "<p>\r\n\r\n</p>")
              true
              true)))
      ≡ ended read (getlines b'\n' (codes "<p>\r\n\r\n</p>")))
    × (get_content_length read ≡ length (codes "<p>\r\n\r\n</p>"))
    × (get_header read (codes "content-type") ≡ codes "text/html")
unfolding trim drop_while drop_while_end
build_http_response-read_example =
    build_http_response-read (codes "today") new_server 200 (codes "OK") (codes "text/html")
      (codes "<p>\r\n\r\n</p>") true true refl (refl, refl) (refl, refl) (omega arith)
