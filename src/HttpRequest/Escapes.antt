-- ===== src/HttpRequest/Escapes.antt =====
-- `url_decode` of src/network/http_request.cpp against the percent-encoding of RFC 3986.
use web_server_http.Common.{
  ℕ, ◌+◌, ◌-◌, ◌/◌, ◌%◌, ◌<◌, Bool, true, false, [], ◌∷◌, ◌≡◌, refl, ap, ◌∙◌, ◌&&◌, ◌||◌, not, ltb,
  leb, ◌==◌, if◌then◌else◌, all_below, all_below_sound, Bool-cases, inl, inr, Bytes, Try, returned,
  threw, ◌>>=◌, All, arith,
}
use web_server_http.Common.Numbers.{stoi}
use web_server_http.HttpRequest.Decode.{plain_byte, url_decode}

abbrev pub hex_digit : ℕ → ℕ
hex_digit n = if ltb n 10 then b'0' + n else b'A' + n - 10

-- The bytes that RFC 3986 calls unreserved.
unfoldable pub unreserved : ℕ → Bool
unreserved c =
    leb b'0' c && leb c b'9'
    || (leb b'A' c && leb c b'Z'
        || (leb b'a' c && leb c b'z' || (c == b'-' || (c == b'.' || (c == b'_' || c == b'~')))))

unfoldable pub percent_encode : Bytes → Bytes
percent_encode [] = []
percent_encode (c ∷ s) =
    let rest = percent_encode s in
    if unreserved c then c ∷ rest else b'%' ∷ hex_digit (c / 16) ∷ hex_digit (c % 16) ∷ rest

-- Two hexadecimal digits are read as their number.
abbrev is_number : Try (Bool × ℕ) → ℕ → Bool
is_number (returned (negative, n)) m = not negative && (n == m)
is_number (threw e) m = false

hex_table :
    all_below 256 (λ c. is_number (stoi 16 (hex_digit (c / 16) ∷ hex_digit (c % 16) ∷ [])) c) ≡ true
unfolding all_below stoi
hex_table = refl

is_number_sound : (t : Try (Bool × ℕ)) (m : ℕ) → is_number t m ≡ true → t ≡ returned (false, m)
is_number_sound (returned (true, n)) m h = absurd cc
is_number_sound (returned (false, n)) m h =
    let same : n ≡ m = ground (arith, h) in ap (λ k. returned (false, k)) same
is_number_sound (threw e) m h = absurd cc

stoi-hex :
    (c : ℕ) → c < 256 → stoi 16 (hex_digit (c / 16) ∷ hex_digit (c % 16) ∷ []) ≡ returned (false, c)
stoi-hex c h = is_number_sound _ c (
    all_below_sound 256 (λ x. is_number (stoi 16 (hex_digit (x / 16) ∷ hex_digit (x % 16) ∷ [])) x)
      c hex_table h)

url_decode-plain :
    (c : ℕ) (s t : Bytes)
    → (c == b'%') ≡ false
    → url_decode s ≡ returned t
    → url_decode (c ∷ s) ≡ returned (plain_byte c ∷ t)
unfolding url_decode
url_decode-plain c [] t h e = ap (λ r. r >>= λ u. returned (plain_byte c ∷ u)) e
url_decode-plain c (d ∷ []) t h e = ap (λ r. r >>= λ u. returned (plain_byte c ∷ u)) e
url_decode-plain c (d ∷ e' ∷ s) t h e = rw (h, e, url_decode) refl

plain_byte-unreserved : (c : ℕ) → unreserved c ≡ true → ((c == b'%') ≡ false) × (plain_byte c ≡ c)
unfolding unreserved
plain_byte-unreserved c h = ground (arith, h)

-- Decoding takes percent-encoding back, for any bytes.
pub url_decode-percent_encode :
    (s : Bytes) → All (λ c. c < 256) s → url_decode (percent_encode s) ≡ returned s
unfolding percent_encode url_decode
url_decode-percent_encode [] h = refl
url_decode-percent_encode (c ∷ s) h = elim (Bool-cases (unreserved c)) [
  | inl u ↦
      let (other, same) = plain_byte-unreserved c u in
      rw u (
        url_decode-plain c (percent_encode s) s other (url_decode-percent_encode s h.1)
        ∙ ap (λ d. returned (d ∷ s)) same)
  | inr u ↦
      let whole : c % 256 ≡ c = omega (arith, h.0) in
      rw (u, stoi-hex c h.0, url_decode-percent_encode s h.1, url_decode)
        (ap (λ d. returned (d ∷ s)) whole)
]
