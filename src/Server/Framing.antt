-- ===== src/Server/Framing.antt =====
-- The responses of `build_http_response`, read line by line, as `HttpRequest` reads requests.
use web_server_http.Common.{
  ℕ, Bool, true, false, List, [], ◌∷◌, ◌++◌, ◌&&◌, ◌≡◌, refl, ap, ◌∙◌, sym, append_assoc,
  if◌then◌else◌, length, Bytes, codes, is_space, is_empty,
}
use web_server_http.Common.Numbers.{to_string}
use web_server_http.HttpRequest.Fields.{
  line_then, header_line, headers_text, Sendable, AllSendable, spaceless-free,
}
use web_server_http.HttpRequest.Lines.{
  free, spaceless, spaceless-append, trim-spaceless, to_string-spaceless,
}
use web_server_http.HttpRequest.{trim}
use web_server_http.Server.Response.{
  crlf, connection_lines, cors_lines, header_lines, build_http_response,
}
use web_server_http.Server.State.{Server}

-- Lines with header fields in front of a text.
abbrev lines_onto : List (Bytes × Bytes) → Bytes → Bytes
lines_onto [] rest = rest
lines_onto (h ∷ hs) rest = line_then (header_line h) (lines_onto hs rest)

lines_onto-append :
    (hs gs : List (Bytes × Bytes)) (rest : Bytes)
    → lines_onto hs (lines_onto gs rest) ≡ lines_onto (hs ++ gs) rest
lines_onto-append [] gs rest = refl
lines_onto-append (h ∷ hs) gs rest = ap (line_then (header_line h)) (lines_onto-append hs gs rest)

headers_text-lines_onto :
    (hs : List (Bytes × Bytes)) (body : Bytes)
    → headers_text hs body ≡ lines_onto hs (line_then [] body)
headers_text-lines_onto [] body = refl
headers_text-lines_onto (h ∷ hs) body =
    ap (line_then (header_line h)) (headers_text-lines_onto hs body)

-- A text with a line's end behind it.
line_then_lem : (s t : Bytes) → s ++ (crlf ++ t) ≡ line_then s t
line_then_lem s t = sym (append_assoc s (b'\r' ∷ []) (b'\n' ∷ t))

abbrev pub connection_fields : Bool → ℕ → List (Bytes × Bytes)
connection_fields true timeout =
    (codes "Connection", codes "keep-alive")
    ∷ (codes "Keep-Alive", codes "timeout=" ++ to_string timeout)
    ∷ []
connection_fields false timeout = (codes "Connection", codes "close") ∷ []

abbrev pub cors_fields : Bool → List (Bytes × Bytes)
cors_fields true =
    (codes "Access-Control-Allow-Origin", codes "*")
    ∷ (codes "Access-Control-Allow-Credentials", codes "true")
    ∷ []
cors_fields false = []

connection_by :
    (b : Bool) (n : ℕ) (rest : Bytes)
    → (if b
          then codes "Connection: keep-alive\r\n"
            ++ (codes "Keep-Alive: timeout=" ++ (to_string n ++ crlf))
          else codes "Connection: close\r\n")
        ++ rest
      ≡ lines_onto (connection_fields b n) rest
connection_by true n rest = simp append_assoc
connection_by false n rest = refl

module _ (date : Bytes) where
  cors_by : (b : Bool) (rest : Bytes) → cors_lines date b ++ rest ≡ lines_onto (cors_fields b) rest
  unfolding cors_lines
  cors_by true rest = refl
  cors_by false rest = refl

  connection_lines-fields :
      (s : Server) (keep_alive : Bool) (rest : Bytes)
      → connection_lines date s keep_alive ++ rest
        ≡ lines_onto
            (connection_fields (keep_alive && s.keep_alive_enabled) s.connection_timeout)
            rest
  unfolding connection_lines
  connection_lines-fields s keep_alive rest =
      connection_by (keep_alive && s.keep_alive_enabled) s.connection_timeout rest

  unfoldable pub status_line : ℕ → Bytes → Bytes
  unfolding to_string
  status_line status_code status_text =
      codes "HTTP/1.1 " ++ (to_string status_code ++ b' ' ∷ status_text)

  -- The fields of a response.
  unfoldable pub response_fields : Server → Bytes → ℕ → Bool → Bool → List (Bytes × Bytes)
  response_fields s content_type body_length keep_alive add_cors =
      (codes "Server", codes "wbeserver-http/1.0")
      ∷ (codes "Content-Type", content_type)
      ∷ (codes "Content-Length", to_string body_length)
      ∷ (connection_fields (keep_alive && s.keep_alive_enabled) s.connection_timeout
          ++ (cors_fields add_cors ++ (codes "Date", date) ∷ []))

  pub build_http_response-lines :
      (s : Server) (status_code : ℕ) (status_text content_type body : Bytes)
      (keep_alive add_cors : Bool)
      → build_http_response date s status_code status_text content_type body keep_alive add_cors
        ≡ line_then
            (status_line status_code status_text)
            (headers_text (response_fields s content_type (length body) keep_alive add_cors) body)
  unfolding build_http_response header_lines status_line response_fields
  build_http_response-lines s status_code status_text content_type body keep_alive add_cors =
      let last : Bytes = lines_onto ((codes "Date", date) ∷ []) (line_then [] body) in
      let fields = connection_fields (keep_alive && s.keep_alive_enabled) s.connection_timeout in
      let middle : connection_lines date s keep_alive ++ (cors_lines date add_cors ++ last)
          ≡ lines_onto (fields ++ (cors_fields add_cors ++ (codes "Date", date) ∷ []))
              (line_then [] body) =
        connection_lines-fields s keep_alive (cors_lines date add_cors ++ last)
        ∙ ap (lines_onto fields) (
            cors_by add_cors last
            ∙ lines_onto-append (cors_fields add_cors) ((codes "Date", date) ∷ [])
                (line_then [] body))
        ∙ lines_onto-append fields (cors_fields add_cors ++ (codes "Date", date) ∷ [])
            (line_then [] body) in
      let tail : headers_text (fields ++ (cors_fields add_cors ++ (codes "Date", date) ∷ [])) body
          ≡ connection_lines date s keep_alive ++ (cors_lines date add_cors ++ last) =
        headers_text-lines_onto (fields ++ (cors_fields add_cors ++ (codes "Date", date) ∷ [])) body
        ∙ sym middle in
      rw tail (simp append_assoc)

AllSendable-append :
    (hs gs : List (Bytes × Bytes)) → AllSendable hs → AllSendable gs → AllSendable (hs ++ gs)
AllSendable-append [] gs h g = g
AllSendable-append (x ∷ hs) gs h g = (h.0, AllSendable-append hs gs h.1 g)

-- A value that has no white space can be sent.
spaceless-Sendable :
    (name value : Bytes)
    → is_empty name ≡ false
    → free b':' name ≡ true
    → spaceless name ≡ true
    → spaceless value ≡ true
    → Sendable (name, value)
spaceless-Sendable name value some_name no_colon n v = (
  some_name,
  no_colon,
  trim-spaceless name n,
  trim-spaceless value v,
  spaceless-free name n,
  spaceless-free value v,
)

connection_fields-Sendable : (b : Bool) (n : ℕ) → AllSendable (connection_fields b n)
unfolding is_space
connection_fields-Sendable true n = (
  spaceless-Sendable (codes "Connection") (codes "keep-alive") refl refl refl refl,
  (
    spaceless-Sendable (codes "Keep-Alive") (codes "timeout=" ++ to_string n) refl refl refl
        (spaceless-append (codes "timeout=") (to_string n) refl (to_string-spaceless n)),
    tt,
  ),
)
connection_fields-Sendable false n =
    (spaceless-Sendable (codes "Connection") (codes "close") refl refl refl refl, tt)

cors_fields-Sendable : (b : Bool) → AllSendable (cors_fields b)
unfolding is_space
cors_fields-Sendable true = (
  spaceless-Sendable (codes "Access-Control-Allow-Origin") (codes "*") refl refl refl refl,
  (
    spaceless-Sendable (codes "Access-Control-Allow-Credentials") (codes "true") refl refl refl
        refl,
    tt,
  ),
)
cors_fields-Sendable false = tt

-- A text without a newline and without spaces at its ends.
abbrev pub Clean : Bytes → Type 0
Clean s = (trim s ≡ s) × (free b'\n' s ≡ true)

named-Sendable :
    (name value : Bytes)
    → is_empty name ≡ false
    → free b':' name ≡ true
    → spaceless name ≡ true
    → Clean value
    → Sendable (name, value)
named-Sendable name value some_name no_colon n v =
    (some_name, no_colon, trim-spaceless name n, v.0, spaceless-free name n, v.1)

pub response_fields-Sendable :
    (date : Bytes) (s : Server) (content_type : Bytes) (n : ℕ) (keep_alive add_cors : Bool)
    → Clean content_type
    → Clean date
    → AllSendable (response_fields date s content_type n keep_alive add_cors)
unfolding response_fields is_space
response_fields-Sendable date s content_type n keep_alive add_cors c t =
    let b = keep_alive && s.keep_alive_enabled in
    (
      spaceless-Sendable (codes "Server") (codes "wbeserver-http/1.0") refl refl refl refl,
      (
        named-Sendable (codes "Content-Type") content_type refl refl refl c,
        (
          spaceless-Sendable (codes "Content-Length") (to_string n) refl refl refl
              (to_string-spaceless n),
          AllSendable-append (connection_fields b s.connection_timeout)
              (cors_fields add_cors ++ (codes "Date", date) ∷ [])
              (connection_fields-Sendable b s.connection_timeout)
              (AllSendable-append (cors_fields add_cors) ((codes "Date", date) ∷ [])
                (cors_fields-Sendable add_cors)
                (named-Sendable (codes "Date") date refl refl refl t, tt)),
        ),
      ),
    )
