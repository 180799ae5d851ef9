-- ===== src/Server/Tls/Tests.antt =====
-- The theorems on TLS at concrete inputs.
use web_server_http.Common.{
  ◌≤◌, not, getlines, cut, to_upper, true, false, List, [], ◌∷◌, ◌&&◌, ◌≡◌, refl, none, some,
  if◌then◌else◌, codes, contains, is_prefix,
}
use web_server_http.Common.Dict.{lookup, nat_key}
use web_server_http.HttpRequest.{
  HttpRequest, new_request, parse, parse_lines, parse_request_line, extract, strip_cr,
  parse_query_parameters, request_line_ok, parse_rest, parse_headers, parse_header_line, trim,
  finish,
}
use web_server_http.Metrics.{new_metrics}
use web_server_http.Server.Alpn.{alpn_select_callback}
use web_server_http.Server.AlpnChoice.{offer, offers}
use web_server_http.Server.Io.{
  is_websocket_path, ReadEvent, received, try_again, complete, read_request_with_timeout, send_left,
  handle_http_connection,
}
use web_server_http.Server.State.{new_server}
use web_server_http.Server.Tests.{environment, same_text, posts_a_user}
use web_server_http.Server.Tls.Connection.{
  ssl_get_fd, ssl_read, ssl_write, Handshake, refused, to_http2, to_http, tls_route,
  handle_tls_connection,
}
use web_server_http.Server.Tls.Context.{TlsState, Answers}
use web_server_http.Server.Tls.Http.{handle_tls_http_connection}
use web_server_http.Server.Tls.Ownership.{
  made, disciplined, handle_tls_connection-disciplined, tls_route-alpn,
}
use web_server_http.Server.Tls.Records.{
  wrote, retry, ssl_read_request_with_timeout, ssl_send_response,
}
use web_server_http.Server.Tls.SamePages.{
  plain, all_plain, handle_http_connection-handle_tls_http_connection,
}
use web_server_http.Server.Tls.Transfer.{
  without_retries, ssl_read_request_extends, ssl_send_response-without_retries,
}

-- OpenSSL makes a context, and the key does not fit the certificate.
abbrev wrong_key : Answers
wrong_key = record {
  new_context = some 1;
  cert_good = true;
  key_good = true;
  cert_loaded = true;
  key_loaded = true;
  key_matches = false;
  protocols_set = true;
}

abbrev no_tls : TlsState
no_tls = record { tls_enabled = false; ssl_ctx = none; cert_file = []; key_file = [] }

abbrev handshake : Handshake
unfolding alpn_select_callback
handshake = record {
  ssl_ctx = some 1;
  new_ssl = some 2;
  fd_set = true;
  accepted = true;
  selected = alpn_select_callback true (offer (codes "http/1.1" ∷ []));
  uses = ssl_get_fd ∷ ssl_read ∷ ssl_write ∷ [];
}

handle_tls_connection-disciplined_example :
    let calls =
      (handle_tls_connection environment handshake new_server
        (new_metrics 0)
        (posts_a_user ∷ [])).1 in
    (disciplined [] calls ≡ true) × (made calls ≤ 1)
handle_tls_connection-disciplined_example =
    handle_tls_connection-disciplined environment handshake new_server (new_metrics 0)
      (posts_a_user ∷ [])

tls_route-alpn_example : tls_route handshake (some 2) ≡ (
    if not true
    then refused
    else if true && offers (codes "h2") (codes "http/1.1" ∷ [])
    then to_http2
    else if offers (codes "http/1.1") (codes "http/1.1" ∷ [])
    then to_http
    else refused)
unfolding handshake alpn_select_callback offer
tls_route-alpn_example = tls_route-alpn handshake 2 true true (codes "http/1.1" ∷ []) refl refl

abbrev in_two_parts : List ReadEvent
in_two_parts = received (codes "GET / HTTP/1.1\r\n") ∷ try_again ∷ received (codes "\r\n") ∷ []

read_in_two_parts :
    read_request_with_timeout [] in_two_parts ≡ complete (codes "GET / HTTP/1.1\r\n\r\n")
unfolding read_request_with_timeout contains is_prefix
read_in_two_parts = refl

ssl_read_request_extends_example :
    ssl_read_request_with_timeout [] in_two_parts ≡ complete (codes "GET / HTTP/1.1\r\n\r\n")
ssl_read_request_extends_example =
    ssl_read_request_extends [] in_two_parts (codes "GET / HTTP/1.1\r\n\r\n") read_in_two_parts

ssl_send_response-without_retries_example :
    ssl_send_response (codes "abc") (wrote 2 ∷ retry ∷ wrote 1 ∷ [])
    ≡ send_left (codes "abc") (without_retries (wrote 2 ∷ retry ∷ wrote 1 ∷ []))
ssl_send_response-without_retries_example =
    ssl_send_response-without_retries (codes "abc") (wrote 2 ∷ retry ∷ wrote 1 ∷ [])

abbrev with_length : HttpRequest
with_length = record new_request { headers = (codes "content-length", codes "3") ∷ [] }

posts_a_user-all_plain : all_plain (posts_a_user ∷ []) ≡ true
unfolding all_plain plain parse parse_lines getlines parse_request_line extract strip_cr
    parse_query_parameters cut is_websocket_path request_line_ok to_upper parse_rest parse_headers
    parse_header_line trim finish
posts_a_user-all_plain = refl

handle_http_connection-handle_tls_http_connection_example :
    handle_http_connection environment same_text same_text 4 new_server
      (new_metrics 0)
      (posts_a_user ∷ [])
    ≡ handle_tls_http_connection environment new_server (new_metrics 0) (posts_a_user ∷ [])
unfolding lookup all_plain
handle_http_connection-handle_tls_http_connection_example =
    handle_http_connection-handle_tls_http_connection environment same_text same_text 4 new_server
      (new_metrics 0) (posts_a_user ∷ []) posts_a_user-all_plain refl
