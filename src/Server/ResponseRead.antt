-- ===== src/Server/ResponseRead.antt =====
-- A client that reads a response of `build_http_response`: the header fields, and where the body is.
use web_server_http.Common.{
  ℕ, ◌^◌, ◌<◌, Bool, true, false, List, [], ◌∷◌, ◌++◌, ◌&&◌, ◌≡◌, refl, ap, ◌∙◌, some, length,
  Bytes, codes, getlines, equal, to_lower,
}
use web_server_http.Common.Dict.{lookup, insert, bytes_key, bytes_less}
use web_server_http.Common.Digits.{stoul-to_string, digits-some, to_string-digits}
use web_server_http.Common.Numbers.{to_string}
use web_server_http.HttpRequest.{
  HttpRequest, new_request, ended, parse_headers, get_header, get_content_length,
}
use web_server_http.HttpRequest.Lines.{to_string-spaceless, free, free-append}
use web_server_http.HttpRequest.Fields.{
  stored, headers_text, getlines-line_then, parse_headers-headers_text, spaceless-free,
}
use web_server_http.Server.Framing.{
  Clean, connection_fields, cors_fields, response_fields, status_line, response_fields-Sendable,
  build_http_response-lines,
}
use web_server_http.Server.Response.{build_http_response}
use web_server_http.Server.State.{Server}

-- The lines behind the status line.
abbrev pub behind_first : List Bytes → List Bytes
behind_first [] = []
behind_first (l ∷ ls) = ls

abbrev fields_by : Bool → Bool → ℕ → Bytes → ℕ → Bytes → List (Bytes × Bytes)
fields_by b c timeout content_type n date =
    (codes "Server", codes "wbeserver-http/1.0")
    ∷ (codes "Content-Type", content_type)
    ∷ (codes "Content-Length", to_string n)
    ∷ (connection_fields b timeout ++ (cors_fields c ++ (codes "Date", date) ∷ []))

-- The fields that the later ones leave alone.
lookup-fields_by :
    (b c : Bool) (timeout : ℕ) (content_type : Bytes) (n : ℕ) (date : Bytes)
    → let kept = stored [] (fields_by b c timeout content_type n date) in
      (lookup (codes "content-length") kept ≡ some (to_string n))
      × (lookup (codes "content-type") kept ≡ some content_type)
unfolding lookup insert stored equal bytes_less to_lower
lookup-fields_by true true timeout content_type n date = (refl, refl)
lookup-fields_by true false timeout content_type n date = (refl, refl)
lookup-fields_by false true timeout content_type n date = (refl, refl)
lookup-fields_by false false timeout content_type n date = (refl, refl)

length_of :
    (r : HttpRequest) (n : ℕ)
    → lookup (codes "content-length") r.headers ≡ some (to_string n)
    → n < 2 ^ 64
    → get_content_length r ≡ n
unfolding get_content_length get_header to_lower
length_of r n e h =
    rw (e, get_content_length, digits-some (to_string n) (to_string-digits n), stoul-to_string n h)
      refl

type_of :
    (r : HttpRequest) (t : Bytes)
    → lookup (codes "content-type") r.headers ≡ some t
    → get_header r (codes "content-type") ≡ t
unfolding get_header to_lower
type_of r t e = rw (e, get_header) refl

status_line-free :
    (date : Bytes) (code : ℕ) (text : Bytes)
    → free b'\n' text ≡ true
    → free b'\n' (status_line date code text) ≡ true
unfolding status_line
status_line-free date code text h =
    free-append b'\n' (to_string code) (b' ' ∷ text)
      (spaceless-free (to_string code) (to_string-spaceless code)) h

-- A response whose status text, content type and date have no newline, and of which the latter two have
-- no spaces at their ends, has behind its status line fields that are read up to the empty line; behind
-- it are the lines of the body. The length that the fields give is the length of the body, if it is
-- below 2^64, and the type is the content type.
pub build_http_response-read :
    (date : Bytes) (s : Server) (status_code : ℕ) (status_text content_type body : Bytes)
    (keep_alive add_cors : Bool)
    → free b'\n' status_text ≡ true
    → Clean content_type
    → Clean date
    → length body < 2 ^ 64
    → (read : HttpRequest) × (parse_headers new_request (
          behind_first (
            getlines b'\n' (
              build_http_response date s status_code status_text content_type body keep_alive
                add_cors)))
        ≡ ended read (getlines b'\n' body))
      × (get_content_length read ≡ length body)
      × (get_header read (codes "content-type") ≡ content_type)
unfolding response_fields
build_http_response-read date s status_code status_text content_type body keep_alive add_cors h c t
      l =
    let fields = response_fields date s content_type (length body) keep_alive add_cors in
    let read : HttpRequest = record new_request { headers = stored [] fields } in
    let (len, type) =
      lookup-fields_by (keep_alive && s.keep_alive_enabled) add_cors s.connection_timeout
        content_type (length body) date in
    (
      read,
      ap (λ r. parse_headers new_request (behind_first (getlines b'\n' r)))
            (build_http_response-lines date s status_code status_text content_type body keep_alive
              add_cors)
          ∙ ap (λ ls. parse_headers new_request (behind_first ls))
              (getlines-line_then (status_line date status_code status_text)
                (headers_text fields body) (status_line-free date status_code status_text h))
          ∙ parse_headers-headers_text new_request fields body
              (response_fields-Sendable date s content_type (length body) keep_alive add_cors c t),
      length_of read (length body) len l,
      type_of read content_type type,
    )
