-- ===== src/HttpRequest/Tests.antt =====
-- Runs of the request parser, and the theorems at concrete inputs.
use Prim.{tt}
use web_server_http.Common.{
  List, is_space, drop_while, drop_while_end, ◌≡◌, refl, true, [], ◌∷◌, Bytes, codes, equal,
  getlines, cut, to_lower, to_upper, returned, arith,
}
use web_server_http.Common.Dict.{bytes_less, insert}
use web_server_http.HttpRequest.Accepted.{WellFormed, parse-WellFormed}
use web_server_http.HttpRequest.Decode.{url_decode}
use web_server_http.HttpRequest.Queries.{Pairs, stored_params}
use web_server_http.HttpRequest.Fields.{stored}
use web_server_http.HttpRequest.RoundTrip.{request_text, request_of, parse-request_text}
use web_server_http.HttpRequest.{
  HttpRequest, new_request, parse, parse_lines, parse_request_line, parse_query_parameters,
  add_query_params, add_query_param, join_lines, request_line_ok, extract, parse_headers,
  parse_header_line, parse_rest, strip_cr, body_of, trim, finish,
}

abbrev wire : Bytes
wire = codes "get /a?x=1+2&y=%41 HTTP/1.1\r\nHost: h \r\nB:c\r\n\r\nhello\nyou"

abbrev request : HttpRequest
request = record {
  method = codes "GET";
  path = codes "/a";
  version = codes "HTTP/1.1";
  headers = (codes "b", codes "c") ∷ (codes "host", codes "h") ∷ [];
  body = codes "hello\nyou";
  query_params = (codes "x", codes "1 2") ∷ (codes "y", codes "A") ∷ [];
  valid = true;
}

parse_run : parse new_request wire ≡ returned (request, true)
unfolding parse parse_lines parse_request_line parse_query_parameters add_query_params
    add_query_param join_lines request_line_ok extract parse_headers parse_header_line parse_rest
    strip_cr body_of trim finish url_decode insert equal bytes_less getlines cut to_lower to_upper
parse_run = refl

parse-WellFormed_example : WellFormed request
parse-WellFormed_example = parse-WellFormed wire request parse_run

abbrev params : Pairs
params = (codes "x", codes "1 &") ∷ (codes "x", codes "=") ∷ []

abbrev fields : List (Bytes × Bytes)
fields = (codes "Host", codes "h") ∷ (codes "X-A", codes "b: c") ∷ []

parse-request_text_example :
    parse new_request
      (request_text (codes "post") (codes "/a") params (codes "HTTP/1.1") fields (codes "hi\n"))
    ≡ returned (
      request_of
          (codes "post")
          (codes "/a")
          (stored_params [] params)
          (codes "HTTP/1.1")
          (stored [] fields)
          (codes "hi\n"),
      true,
    )
unfolding trim is_space drop_while drop_while_end
parse-request_text_example =
    parse-request_text (codes "post") (codes "/a") params (codes "HTTP/1.1") fields (codes "hi\n")
      (refl, refl, refl, refl, refl, refl, refl)
      (
        (omega arith, tt),
        (omega arith, (omega arith, (omega arith, tt))),
        ((omega arith, tt), (omega arith, tt), tt),
      )
      ((refl, refl, refl, refl, refl, refl), ((refl, refl, refl, refl, refl, refl), tt))
