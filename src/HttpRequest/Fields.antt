-- ===== src/HttpRequest/Fields.antt =====
-- The header lines of a message as they are written, and `parse_headers`.
use web_server_http.Common.{
  true, false, List, [], ◌∷◌, ◌++◌, ◌≡◌, refl, ◌∙◌, is_empty, Bytes, to_lower, is_space, getlines,
  arith,
}
use web_server_http.Common.Dict.{insert, bytes_key}
use web_server_http.HttpRequest.{
  HttpRequest, trim, parse_header_line, strip_cr, ended, parse_headers,
}
use web_server_http.HttpRequest.Lines.{
  free, free-append, spaceless, getlines-line, strip_cr_lem, cut-free, trim-space,
}

-- A line with its end, and what is behind it.
abbrev pub line_then : Bytes → Bytes → Bytes
line_then line rest = (line ++ b'\r' ∷ []) ++ b'\n' ∷ rest

abbrev pub header_line : Bytes × Bytes → Bytes
header_line (name, value) = name ++ b':' ∷ b' ' ∷ value

abbrev pub headers_text : List (Bytes × Bytes) → Bytes → Bytes
headers_text [] body = line_then [] body
headers_text (h ∷ hs) body = line_then (header_line h) (headers_text hs body)

-- A field that a header line can carry: the name is there and has no colon, name and value have no
-- spaces at their ends, and no newline.
abbrev pub Sendable : Bytes × Bytes → Type 0
Sendable (name, value) =
    (is_empty name ≡ false)
    × (free b':' name ≡ true)
    × (trim name ≡ name)
    × (trim value ≡ value)
    × (free b'\n' name ≡ true)
    × (free b'\n' value ≡ true)

abbrev pub AllSendable : List (Bytes × Bytes) → Type 0
AllSendable [] = Unit
AllSendable (h ∷ hs) = Sendable h × AllSendable hs

-- The fields as the map keeps them: names in lower case, the last value of a name.
unfoldable pub stored : List (Bytes × Bytes) → List (Bytes × Bytes) → List (Bytes × Bytes)
unfolding insert to_lower
stored kept [] = kept
stored kept ((name, value) ∷ hs) = stored (insert (to_lower name) value kept) hs

pub spaceless-free : (s : Bytes) → spaceless s ≡ true → free b'\n' s ≡ true
unfolding is_space
spaceless-free [] h = refl
spaceless-free (x ∷ s) h = ground (arith, h, spaceless-free s)

pub getlines-line_then :
    (line rest : Bytes)
    → free b'\n' line ≡ true
    → getlines b'\n' (line_then line rest) ≡ (line ++ b'\r' ∷ []) ∷ getlines b'\n' rest
getlines-line_then line rest h =
    getlines-line b'\n' (line ++ b'\r' ∷ []) rest (free-append b'\n' line (b'\r' ∷ []) h refl)

parse_header_line-header_line :
    (r : HttpRequest) (name value : Bytes)
    → Sendable (name, value)
    → parse_header_line r (header_line (name, value))
      ≡ (record r { headers = insert (to_lower name) value r.headers }, true)
unfolding parse_header_line
parse_header_line-header_line r name value (some_name, no_colon, trimmed, value_trimmed, a, b) =
    rw
      (
        cut-free b':' name (b' ' ∷ value) no_colon,
        trimmed,
        some_name,
        trim-space value ∙ value_trimmed,
        parse_header_line,
      )
      refl

header_line-free : (h : Bytes × Bytes) → Sendable h → free b'\n' (header_line h) ≡ true
header_line-free (name, value) (a, b, c, d, name_free, value_free) =
    free-append b'\n' name (b':' ∷ b' ' ∷ value) name_free value_free

header_line-some : (h : Bytes × Bytes) → Sendable h → is_empty (header_line h) ≡ false
header_line-some ([], value) s = absurd (ground (arith, s.0))
header_line-some (c ∷ name, value) s = refl

-- The loop over the header lines reads them all and stops behind the empty line.
pub parse_headers-headers_text :
    (r : HttpRequest) (hs : List (Bytes × Bytes)) (body : Bytes)
    → AllSendable hs
    → parse_headers r (getlines b'\n' (headers_text hs body))
      ≡ ended (record r { headers = stored r.headers hs }) (getlines b'\n' body)
unfolding parse_headers stored strip_cr
parse_headers-headers_text r [] body h = rw (getlines-line_then [] body refl) refl
parse_headers-headers_text r ((name, value) ∷ hs) body (h, hs') =
    rw
      (
        getlines-line_then (header_line (name, value)) (headers_text hs body)
            (header_line-free (name, value) h),
        parse_headers,
        strip_cr_lem (header_line (name, value)),
        header_line-some (name, value) h,
        parse_header_line-header_line r name value h,
      )
      (parse_headers-headers_text (record r { headers = insert (to_lower name) value r.headers }) hs
        body hs')
