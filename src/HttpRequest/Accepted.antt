-- ===== src/HttpRequest/Accepted.antt =====
-- What `HttpRequest::parse` of src/network/http_request.cpp accepts.
use web_server_http.Common.{
  Bool, true, false, not, ◌&&◌, ◌||◌, List, [], ◌∷◌, ◌≡◌, refl, ap, ◌≢◌, subst, ◌∙◌, ◌>>=◌, cut,
  Option-cases, is_empty, Bytes, Try, returned, threw, Bool-cases, Try-cases, inl, inr,
  if◌then◌else◌, arith, getlines,
}
use web_server_http.HttpRequest.{
  HttpRequest, trim, extract, new_request, begins_with_slash, request_line_ok, parse_request_line,
  parse_header_line, strip_cr, Scan, malformed, unended, ended, parse_headers, body_of, finish,
  parse_rest, parse_lines, parse,
}

-- The three parts of the request line are there, the path begins with a slash, and the flag is set.
abbrev pub WellFormed : HttpRequest → Type 0
WellFormed r =
    (is_empty r.method ≡ false)
    × (is_empty r.path ≡ false)
    × (is_empty r.version ≡ false)
    × (begins_with_slash r.path ≡ true)
    × (r.valid ≡ true)

-- What the loop over the header lines leaves alone.
abbrev SameLine : HttpRequest → HttpRequest → Type 0
SameLine r r' = (r'.method ≡ r.method) × (r'.path ≡ r.path) × (r'.version ≡ r.version)

abbrev scanned : Scan → HttpRequest
scanned (malformed r) = r
scanned (unended r) = r
scanned (ended r lines) = r

parse_header_line-SameLine :
    (r : HttpRequest) (line : Bytes) → SameLine r (parse_header_line r line).0
unfolding parse_header_line
parse_header_line-SameLine r line = elim (Option-cases (cut b':' line)) [
  | inl e ↦ rw (e, parse_header_line) (refl, refl, refl)
  | inr ((before, behind), e) ↦ elim (Bool-cases (is_empty before || is_empty (trim before))) [
    | inl b ↦ rw (e, b, parse_header_line) (refl, refl, refl)
    | inr b ↦ rw (e, b, parse_header_line) (refl, refl, refl)
  ]
]

parse_headers-SameLine :
    (r : HttpRequest) (lines : List Bytes) → SameLine r (scanned (parse_headers r lines))
unfolding parse_headers
parse_headers-SameLine r [] = (refl, refl, refl)
parse_headers-SameLine r (line ∷ lines) = elim (Bool-cases (is_empty (strip_cr line))) [
  | inl b ↦ rw (b, parse_headers) (refl, refl, refl)
  | inr b ↦
      let next = parse_header_line r (strip_cr line) in
      let (m, p, v) = parse_header_line-SameLine r (strip_cr line) in
      let (m', p', v') = parse_headers-SameLine next.0 lines in
      elim (Bool-cases next.1) [
        | inl c ↦ rw (b, c, parse_headers) (m' ∙ m, p' ∙ p, v' ∙ v)
        | inr c ↦ rw (b, c, parse_headers) (m, p, v)
      ]
]

abbrev answered : HttpRequest → Bool → Try (HttpRequest × Bool)
answered r b = returned (r, b)

refused-ne : (x y : HttpRequest) → answered x false ≢ answered y true
refused-ne x y h = cc

checked :
    (t : Try HttpRequest) (r : HttpRequest)
    → (t >>= λ x. answered x (request_line_ok x)) ≡ answered r true
    → request_line_ok r ≡ true
checked (returned x) r e = cc
checked (threw x) r e = absurd cc

parse_request_line_ok :
    (r r' : HttpRequest) (line : Bytes)
    → parse_request_line r line ≡ returned (r', true)
    → request_line_ok r' ≡ true
unfolding parse_request_line
parse_request_line_ok r r' line e = elim (Option-cases (extract line)) [
  | inl q ↦ absurd (refused-ne _ _ (rw (q, parse_request_line) at e))
  | inr ((m, after_method), q) ↦ elim (Option-cases (extract after_method)) [
    | inl q' ↦ absurd (refused-ne _ _ (rw (q, q', parse_request_line) at e))
    | inr ((p, after_path), q') ↦ elim (Option-cases (extract after_path)) [
      | inl q'' ↦ absurd (refused-ne _ _ (rw (q, q', q'', parse_request_line) at e))
      | inr ((v, rest), q'') ↦ checked _ r' (rw (q, q', q'', parse_request_line) at e)
    ]
  ]
]

finish-WellFormed :
    (r r' : HttpRequest) → begins_with_slash r.path ≡ true → finish r ≡ (r', true) → WellFormed r'
unfolding finish
finish-WellFormed r r' h e =
    let v = not (is_empty r.method) && not (is_empty r.path) && not (is_empty r.version) in
    let set : v ≡ true = ap (λ t. t.1) e in
    subst WellFormed (ap (λ t. t.0) e)
      (ground (arith, set), ground (arith, set), ground (arith, set), h, set)

parse_rest-WellFormed :
    (r r' : HttpRequest) (scan : Scan)
    → SameLine r (scanned scan)
    → begins_with_slash r.path ≡ true
    → parse_rest scan ≡ (r', true)
    → WellFormed r'
unfolding parse_rest
parse_rest-WellFormed r r' (malformed x) (m, p, v) h e = absurd cc
parse_rest-WellFormed r r' (unended x) (m, p, v) h e = finish-WellFormed x r' (rw p h) e
parse_rest-WellFormed r r' (ended x lines) (m, p, v) h e =
    finish-WellFormed (record x { body = body_of lines }) r' (rw p h) e

request_line_ok-slash :
    (r : HttpRequest) → request_line_ok r ≡ true → begins_with_slash r.path ≡ true
unfolding request_line_ok
request_line_ok-slash r h = ground (arith, h)

behind_first_line :
    (first r : HttpRequest) (fine : Bool) (lines : List Bytes)
    → (fine ≡ true → request_line_ok first ≡ true)
    → (if fine then parse_rest (parse_headers first lines) else (first, false)) ≡ (r, true)
    → WellFormed r
behind_first_line first r true lines h e =
    parse_rest-WellFormed first r (parse_headers first lines) (parse_headers-SameLine first lines)
      (request_line_ok-slash first (h refl)) e
behind_first_line first r false lines h e = absurd cc

lines-WellFormed :
    (lines : List Bytes) (r : HttpRequest)
    → parse_lines new_request lines ≡ answered r true
    → WellFormed r
unfolding parse_lines finish
lines-WellFormed [] r e = absurd (refused-ne _ _ e)
lines-WellFormed (line ∷ lines) r e =
    elim (Try-cases (parse_request_line new_request (strip_cr line))) [
      | inr (x, q) ↦ let e' = rw (q, parse_lines) at e in absurd cc
      | inl ((first, fine), q) ↦
          behind_first_line first r fine lines
            (λ b. parse_request_line_ok new_request first (strip_cr line) (rw b at q))
            (unwrap _ _ (rw (q, parse_lines) at e))
    ]
  where
    unwrap : (x y : HttpRequest × Bool) → answered x.0 x.1 ≡ answered y.0 y.1 → x ≡ y
    unwrap x y h = cc

-- A text that `parse` accepts gives a request with a method, a path that begins with a slash, and a
-- version, and the flag that `is_valid` reads is set.
pub parse-WellFormed :
    (raw : Bytes) (r : HttpRequest) → parse new_request raw ≡ returned (r, true) → WellFormed r
unfolding parse
parse-WellFormed raw r e = elim (Bool-cases (is_empty raw)) [
  | inl b ↦ absurd (refused-ne _ _ (rw (b, parse) at e))
  | inr b ↦ lines-WellFormed (getlines b'\n' raw) r (rw (b, parse) at e)
]
