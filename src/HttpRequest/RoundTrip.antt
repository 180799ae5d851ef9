-- ===== src/HttpRequest/RoundTrip.antt =====
-- A request as a client writes it, and `HttpRequest::parse`.
use web_server_http.Common.{
  true, false, not, ◌&&◌, List, [], ◌∷◌, ◌++◌, ◌≡◌, refl, ap, ◌∙◌, sym, is_empty, some, Bytes,
  to_upper, is_space, append-nil, returned, arith,
}
use web_server_http.Common.Dict.{bytes_key}
use web_server_http.HttpRequest.{
  HttpRequest, new_request, extract, begins_with_slash, request_line_ok, parse_request_line, finish,
  parse_rest, parse_lines, parse,
}
use web_server_http.HttpRequest.Bodies.{less_newline, body_of-getlines}
use web_server_http.HttpRequest.Queries.{
  Pairs, ByteTexts, target, stored_params, parse_query_parameters-target, target-spaceless,
}
use web_server_http.HttpRequest.Lines.{
  free, free-append, spaceless, strip_cr_lem, extract-word, extract-space,
}
use web_server_http.HttpRequest.Fields.{
  line_then, headers_text, AllSendable, stored, spaceless-free, getlines-line_then,
  parse_headers-headers_text,
}

abbrev pub start_line : Bytes → Bytes → Bytes → Bytes
start_line method target version = method ++ b' ' ∷ (target ++ b' ' ∷ version)

-- A request with its query and fields.
unfoldable pub request_text : Bytes → Bytes → Pairs → Bytes → List (Bytes × Bytes) → Bytes → Bytes
unfolding target
request_text method path ps version hs body =
    line_then (start_line method (target path ps) version) (headers_text hs body)

-- The words of a start line: there, and without white space; the path begins with a slash and has no
-- query.
abbrev pub Startable : Bytes → Bytes → Bytes → Type 0
Startable method path version =
    (is_empty method ≡ false)
    × (spaceless method ≡ true)
    × (begins_with_slash path ≡ true)
    × (spaceless path ≡ true)
    × (free b'?' path ≡ true)
    × (is_empty version ≡ false)
    × (spaceless version ≡ true)

slash-some : (s : Bytes) → begins_with_slash s ≡ true → is_empty s ≡ false
slash-some [] h = absurd (ground (arith, h))
slash-some (c ∷ s) h = refl

upper-some : (s : Bytes) → is_empty (to_upper s) ≡ is_empty s
unfolding to_upper
upper-some [] = refl
upper-some (c ∷ s) = refl

extract_all : (w : Bytes) → is_empty w ≡ false → spaceless w ≡ true → extract w ≡ some (w, [])
extract_all w e h = ap extract (sym (append-nil w)) ∙ extract-word w [] e h refl

start_line-free :
    (method target version : Bytes)
    → spaceless method ≡ true
    → spaceless target ≡ true
    → spaceless version ≡ true
    → free b'\n' (start_line method target version) ≡ true
start_line-free method target version m p v =
    free-append b'\n' method (b' ' ∷ (target ++ b' ' ∷ version)) (spaceless-free method m) (
      free-append b'\n' target (b' ' ∷ version) (spaceless-free target p)
        (spaceless-free version v))

target-some :
    (path : Bytes) (ps : Pairs) → is_empty path ≡ false → is_empty (target path ps) ≡ false
unfolding target
target-some path [] h = h
target-some [] (p ∷ ps) h = absurd (ground (arith, h))
target-some (c ∷ path) (p ∷ ps) h = refl

-- The request behind its start line.
abbrev started : Bytes → Bytes → Pairs → Bytes → HttpRequest
started method path params version = record new_request {
  method = to_upper method;
  path = path;
  version = version;
  query_params = params;
}

parse_request_line-start_line :
    (method path : Bytes) (ps : Pairs) (version : Bytes)
    → Startable method path version
    → ByteTexts ps
    → parse_request_line new_request (start_line method (target path ps) version)
      ≡ returned (started method path (stored_params [] ps) version, true)
unfolding parse_request_line request_line_ok is_space
parse_request_line-start_line method path ps version
      (some_method, m, slash, p, no_query, some_version, v) texts =
    rw
      (
        extract-word method (b' ' ∷ (target path ps ++ b' ' ∷ version)) some_method m refl,
        extract-space (target path ps ++ b' ' ∷ version),
        extract-word (target path ps) (b' ' ∷ version) (target-some path ps (slash-some path slash))
            (target-spaceless path ps p texts) refl,
        extract-space version ∙ extract_all version some_version v,
        parse_query_parameters-target
            (record new_request { method = to_upper method; version = version }) path ps no_query
            refl texts,
        parse_request_line,
        upper-some method ∙ some_method,
        slash-some path slash,
        some_version,
        slash,
      )
      refl

-- The request that is read.
abbrev pub request_of : Bytes → Bytes → Pairs → Bytes → List (Bytes × Bytes) → Bytes → HttpRequest
request_of method path params version hs body = record {
  method = to_upper method;
  path = path;
  version = version;
  headers = hs;
  body = less_newline body;
  query_params = params;
  valid = true;
}

line_then-some :
    (line rest : Bytes) → is_empty line ≡ false → is_empty (line_then line rest) ≡ false
line_then-some [] rest h = absurd (ground (arith, h))
line_then-some (c ∷ line) rest h = refl

start_line-some :
    (method target version : Bytes)
    → is_empty method ≡ false
    → is_empty (start_line method target version) ≡ false
start_line-some [] target version h = absurd (ground (arith, h))
start_line-some (c ∷ method) target version h = refl

-- A request that a client writes is accepted, if the method, the path and the version are there and have
-- no white space, the path begins with a slash and has no question mark, the names and values of the
-- query are bytes, and the header fields are ones that a line can carry: the method in upper case, the
-- path and the version are those of the start line; a parameter has the last value that was given with
-- its name, and so has a field, with its name in lower case; and the body is what stands behind the empty
-- line, less one newline at its end.
pub parse-request_text :
    (method path : Bytes) (ps : Pairs) (version : Bytes) (hs : List (Bytes × Bytes)) (body : Bytes)
    → Startable method path version
    → ByteTexts ps
    → AllSendable hs
    → parse new_request (request_text method path ps version hs body)
      ≡ returned (request_of method path (stored_params [] ps) version (stored [] hs) body, true)
unfolding parse parse_lines parse_rest finish request_text
parse-request_text method path ps version hs body start texts sendable =
    let line = start_line method (target path ps) version in
    let line_free =
      start_line-free method (target path ps) version start.1
        (target-spaceless path ps start.3 texts) start.6 in
    let all_there : (not (is_empty (to_upper method))
          && not (is_empty path)
          && not (is_empty version))
        ≡ true =
      rw (upper-some method ∙ start.0, slash-some path start.2, start.5) refl in
    rw
      (
        line_then-some line (headers_text hs body)
            (start_line-some method (target path ps) version start.0),
        getlines-line_then line (headers_text hs body) line_free,
        strip_cr_lem line,
        parse_request_line-start_line method path ps version start texts,
        parse_headers-headers_text (started method path (stored_params [] ps) version) hs body
            sendable,
        body_of-getlines body,
        parse_lines,
        parse,
      )
      (ap
        (λ b. returned (
          record (request_of method path (stored_params [] ps) version (stored [] hs) body) {
            valid = b;
          },
          b,
        ))
        all_there)
