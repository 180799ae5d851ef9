-- ===== src/Json/Escaping.antt =====
-- String escapes in both directions: `escape_string` against the loop of `parse_string`.
use web_server_http.Common.{ℕ, [], ◌∷◌, ◌++◌, ◌≡◌, refl, ap, ◌∙◌, append_assoc, Bytes, arith}
use web_server_http.Json.Parse.{string_body}
use web_server_http.Json.Print.{escape_byte, escape_string}

abbrev pub before : ℕ → Bytes × Bytes → Bytes × Bytes
before c (text, rest) = (c ∷ text, rest)

-- One escaped byte is read as that byte, where something follows.
string_body-escape_byte :
    (c x : ℕ) (tail : Bytes)
    → string_body (escape_byte c ++ x ∷ tail) ≡ before c (string_body (x ∷ tail))
unfolding string_body escape_byte
string_body-escape_byte c x tail = ground arith

string_body-escape_byte_append :
    (c : ℕ) (front : Bytes) (x : ℕ) (rest : Bytes)
    → string_body (escape_byte c ++ (front ++ x ∷ rest))
      ≡ before c (string_body (front ++ x ∷ rest))
string_body-escape_byte_append c [] x rest = string_body-escape_byte c x rest
string_body-escape_byte_append c (y ∷ front) x rest =
    string_body-escape_byte c y (front ++ x ∷ rest)

string_body-quote : (rest : Bytes) → string_body (b'"' ∷ rest) ≡ ([], rest)
unfolding string_body
string_body-quote [] = refl
string_body-quote (x ∷ rest) = refl

-- `parse_string` reads an escaped text, closed by a quote, back as the text, and stops right behind
-- the quote, whatever follows.
pub string_body-escape_string :
    (s rest : Bytes) → string_body (escape_string s ++ b'"' ∷ rest) ≡ (s, rest)
unfolding escape_string
string_body-escape_string [] rest = string_body-quote rest
string_body-escape_string (c ∷ s) rest = rw append_assoc (
    string_body-escape_byte_append c (escape_string s) b'"' rest
    ∙ ap (before c) (string_body-escape_string s rest))
