-- ===== src/HttpRequest/Decode.antt =====
-- `HttpRequest::url_decode` of src/network/http_request.cpp.
use web_server_http.Common.{
  ℕ, ◌-◌, ◌%◌, Bool, true, false, [], ◌∷◌, ◌==◌, if◌then◌else◌, Bytes, Try, returned, ◌>>=◌,
}
use web_server_http.Common.Numbers.{stoi}

-- `static_cast<char>` of an `int`, as a byte.
abbrev pub char_of_int : Bool × ℕ → ℕ
char_of_int (negative, n) = if negative then (256 - n % 256) % 256 else n % 256

-- A byte other than a percent sign that has two bytes behind it.
abbrev pub plain_byte : ℕ → ℕ
plain_byte c = if c == b'+' then b' ' else c

-- The loop, over what is left of the string.
unfoldable pub url_decode : Bytes → Try Bytes
unfolding stoi
url_decode [] = returned []
url_decode (c ∷ []) = returned (plain_byte c ∷ [])
url_decode (c ∷ d ∷ []) = returned (plain_byte c ∷ plain_byte d ∷ [])
url_decode (c ∷ d ∷ e ∷ s) = elim (c == b'%') [
  | true ↦ do v ← stoi 16 (d ∷ e ∷ []); rest ← url_decode s; returned (char_of_int v ∷ rest)
  | false ↦ do rest ← url_decode (d ∷ e ∷ s); returned (plain_byte c ∷ rest)
]
