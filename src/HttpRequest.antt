-- ===== src/HttpRequest.antt =====
-- src/network/http_request.cpp and include/network/http_request.h: a parsed HTTP/1.1 request.
-- A method that may throw returns a `Try`; the object after the call is part of the result.
pub mod Decode
pub mod Escapes
pub mod Accepted
pub mod Lines
pub mod Queries
pub mod RoundTrip
pub mod Bodies
pub mod Fields
mod Tests
use web_server_http.Common.{
  ℕ, Bool, true, false, not, ◌&&◌, ◌||◌, List, [], ◌∷◌, ◌++◌, Option, none, some, ◌==◌,
  if◌then◌else◌, is_empty, drop_last, get_last_or, Bytes, codes, contains, is_space, to_lower,
  to_upper, cut, getlines, drop_while, take_while, drop_while_end, Try, returned, threw, ◌>>=◌,
}
use web_server_http.Common.Dict.{lookup, insert, bytes_key}
use web_server_http.Common.Numbers.{stoul}
use Decode.{url_decode}

pub record HttpRequest : Type 0 where
  pub method : Bytes
  pub path : Bytes
  pub version : Bytes
  pub headers : List (Bytes × Bytes)
  pub body : Bytes
  pub query_params : List (Bytes × Bytes)
  pub valid : Bool

abbrev pub new_request : HttpRequest
new_request = record {
  method = [];
  path = [];
  version = [];
  headers = [];
  body = [];
  query_params = [];
  valid = false;
}

abbrev pub is_sp : ℕ → Bool
is_sp c = c == b' '

-- Spaces off both ends, and nothing else.
unfoldable pub trim : Bytes → Bytes
unfolding drop_while drop_while_end
trim s = drop_while_end is_sp (drop_while is_sp s)

-- `stream >> word`: `none` if the stream holds no word, and then the variable is left alone.
unfoldable pub extract : Bytes → Option (Bytes × Bytes)
unfolding drop_while take_while is_space
extract s =
    let r = drop_while is_space s in
    if is_empty r
    then none
    else some (take_while (λ c. not (is_space c)) r, drop_while (λ c. not (is_space c)) r)

-- One round of the loop over the parts between `&`.
unfoldable pub add_query_param : List (Bytes × Bytes) → Bytes → Try (List (Bytes × Bytes))
unfolding cut insert
add_query_param params pair = elim (cut b'=' pair) [
  | none ↦ returned params
  | some (k, v) ↦ do key ← url_decode k; value ← url_decode v; returned (insert key value params)
]

unfoldable pub add_query_params : List (Bytes × Bytes) → List Bytes → Try (List (Bytes × Bytes))
add_query_params params [] = returned params
add_query_params params (p ∷ ps) = do
  params' ← add_query_param params p
  add_query_params params' ps

unfoldable pub parse_query_parameters : HttpRequest → Bytes → Try HttpRequest
parse_query_parameters r path_with_query = elim (cut b'?' path_with_query) [
  | none ↦ returned (record r { path = path_with_query })
  | some (path, query) ↦ do
    params ← add_query_params r.query_params (getlines b'&' query)
    returned (record r { path = path; query_params = params })
]

abbrev pub begins_with_slash : Bytes → Bool
begins_with_slash [] = false
begins_with_slash (c ∷ s) = c == b'/'

-- The checks at the end of `parse_request_line`.
unfoldable pub request_line_ok : HttpRequest → Bool
request_line_ok r =
    not (is_empty r.method || is_empty r.path || is_empty r.version) && begins_with_slash r.path

-- `parse_request_line`; a missing word leaves what was read before it.
unfoldable pub parse_request_line : HttpRequest → Bytes → Try (HttpRequest × Bool)
parse_request_line r line = elim (extract line) [
  | none ↦ returned (r, false)
  | some (m, after_method) ↦ elim (extract after_method) [
    | none ↦ returned (record r { method = m }, false)
    | some (p, after_path) ↦ elim (extract after_path) [
      | none ↦ returned (record r { method = m }, false)
      | some (v, _) ↦ do
        r' ← parse_query_parameters (record r { method = to_upper m; version = v }) p
        returned (r', request_line_ok r')
    ]
  ]
]

unfoldable pub parse_header_line : HttpRequest → Bytes → HttpRequest × Bool
parse_header_line r line = elim (cut b':' line) [
  | none ↦ (r, false)
  | some (before, behind) ↦
      if is_empty before || is_empty (trim before)
      then (r, false)
      else (record r { headers = insert (to_lower (trim before)) (trim behind) r.headers }, true)
]

-- A line without the carriage return at its end.
unfoldable pub strip_cr : Bytes → Bytes
strip_cr line = if get_last_or line 0 == b'\r' then drop_last line else line

-- Where the loop over the header lines stops: at a malformed line, at the end of the text, or at the
-- empty line, with the lines behind it.
pub data Scan : Type 0 where
  malformed unended : HttpRequest → Scan
  ended : HttpRequest → List Bytes → Scan

unfoldable pub parse_headers : HttpRequest → List Bytes → Scan
parse_headers r [] = unended r
parse_headers r (line ∷ lines) =
    if is_empty (strip_cr line)
    then ended r lines
    else let (r', fine) = parse_header_line r (strip_cr line) in
      let rest : Scan = parse_headers r' lines in if fine then rest else malformed r'

-- The body: the lines with a newline behind each, less the last newline.
unfoldable pub join_lines : List Bytes → Bytes
join_lines [] = []
join_lines (l ∷ ls) = l ++ b'\n' ∷ join_lines ls

unfoldable pub body_of : List Bytes → Bytes
body_of lines =
    let text = join_lines lines in if get_last_or text 0 == b'\n' then drop_last text else text

-- The last two lines of `parse`.
unfoldable pub finish : HttpRequest → HttpRequest × Bool
finish r =
    let v : Bool = not (is_empty r.method) && not (is_empty r.path) && not (is_empty r.version) in
    (record r { valid = v }, v)

unfoldable pub parse_rest : Scan → HttpRequest × Bool
parse_rest (malformed r) = (r, false)
parse_rest (unended r) = finish r
parse_rest (ended r lines) = finish (record r { body = body_of lines })

unfoldable pub parse_lines : HttpRequest → List Bytes → Try (HttpRequest × Bool)
parse_lines r [] = returned (finish r)
parse_lines r (line ∷ lines) = do
  first ← parse_request_line r (strip_cr line)
  returned (if first.1 then parse_rest (parse_headers first.0 lines) else (first.0, false))

unfoldable pub parse : HttpRequest → Bytes → Try (HttpRequest × Bool)
parse r raw = if is_empty raw then returned (r, false) else parse_lines r (getlines b'\n' raw)

unfoldable pub is_valid : HttpRequest → Bool
is_valid r = r.valid

abbrev or_empty : Option Bytes → Bytes
or_empty none = []
or_empty (some s) = s

unfoldable pub get_header : HttpRequest → Bytes → Bytes
unfolding lookup to_lower
get_header r name = or_empty (lookup (to_lower name) r.headers)

unfoldable pub get_query_param : HttpRequest → Bytes → Bytes
unfolding lookup
get_query_param r name = or_empty (lookup name r.query_params)

unfoldable pub has_json_content_type : HttpRequest → Bool
unfolding get_header contains
has_json_content_type r = contains (codes "application/json") (get_header r (codes "content-type"))

-- `catch (...) { return 0; }`.
abbrev or_zero : Try ℕ → ℕ
or_zero (returned n) = n
or_zero (threw e) = 0

unfoldable pub get_content_length : HttpRequest → ℕ
unfolding get_header stoul
get_content_length r =
    let value = get_header r (codes "content-length") in
    if is_empty value then 0 else or_zero (stoul value)
