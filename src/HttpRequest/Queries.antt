-- ===== src/HttpRequest/Queries.antt =====
-- The query of a target as a client writes it, with names and values percent-encoded.
use web_server_http.Common.{
  ℕ, ◌/◌, ◌%◌, ◌<◌, Bool, true, false, List, [], ◌∷◌, ◌++◌, ◌≡◌, refl, ap, ◌∙◌, sym, ◌||◌, ◌==◌,
  ==_iff, ◌≢◌, if◌then◌else◌, is_empty, Bytes, getlines, is_space, returned, All, Bool-cases, inl,
  inr, arith,
}
use web_server_http.Common.Dict.{insert, bytes_key}
use web_server_http.HttpRequest.{
  HttpRequest, add_query_param, add_query_params, parse_query_parameters,
}
use web_server_http.HttpRequest.Escapes.{
  hex_digit, unreserved, percent_encode, url_decode-percent_encode,
}
use web_server_http.HttpRequest.Lines.{
  free, spaceless, free-append, spaceless-append, getlines-line, getlines-whole, cut-free, cut-none,
}

-- The bytes of an encoded text.
abbrev encoded_byte : ℕ → Bool
encoded_byte c = unreserved c || c == b'%'

abbrev encoded : Bytes → Bool
encoded [] = true
encoded (c ∷ s) = if encoded_byte c then encoded s else false

hex_digit-encoded : (n : ℕ) → n < 16 → encoded_byte (hex_digit n) ≡ true
unfolding unreserved
hex_digit-encoded n h = ground (arith, h)

percent_encode-encoded : (s : Bytes) → All (λ c. c < 256) s → encoded (percent_encode s) ≡ true
unfolding percent_encode unreserved
percent_encode-encoded [] h = refl
percent_encode-encoded (c ∷ s) h = elim (Bool-cases (unreserved c)) [
  | inl u ↦ rw (u, percent_encode) (rw u (percent_encode-encoded s h.1))
  | inr u ↦
      rw
        (
          u,
          percent_encode,
          hex_digit-encoded (c / 16) (omega (arith, h.0)),
          hex_digit-encoded (c % 16) (omega arith),
        )
        (percent_encode-encoded s h.1)
]

differ : true ≢ false
differ h = cc

encoded-free : (d : ℕ) (s : Bytes) → encoded_byte d ≡ false → encoded s ≡ true → free d s ≡ true
encoded-free d [] h e = refl
encoded-free d (x ∷ s) h e = elim (Bool-cases (encoded_byte x)) [
  | inr t ↦ absurd (ground (arith, t, e))
  | inl t ↦ elim (Bool-cases (x == d)) [
    | inl q ↦ absurd (differ (sym t ∙ ap encoded_byte ((==_iff x d).0 q) ∙ h))
    | inr q ↦ rw q (encoded-free d s h (rw t at e))
  ]
]

encoded-spaceless : (s : Bytes) → encoded s ≡ true → spaceless s ≡ true
unfolding is_space unreserved
encoded-spaceless [] e = refl
encoded-spaceless (x ∷ s) e = ground (arith, e, encoded-spaceless s)

abbrev pub Pairs : Type 0
Pairs = List (Bytes × Bytes)

-- All bytes of the names and values are bytes.
abbrev pub ByteTexts : Pairs → Type 0
ByteTexts [] = Unit
ByteTexts ((k, v) ∷ ps) = All (λ c. c < 256) k × All (λ c. c < 256) v × ByteTexts ps

unfoldable pub encoded_pair : Bytes × Bytes → Bytes
unfolding percent_encode
encoded_pair (k, v) = percent_encode k ++ b'=' ∷ percent_encode v

unfoldable pub pairs_text : Pairs → Bytes
unfolding encoded_pair
pairs_text [] = []
pairs_text (p ∷ []) = encoded_pair p
pairs_text (p ∷ q ∷ ps) = encoded_pair p ++ b'&' ∷ pairs_text (q ∷ ps)

-- The parameters as the map keeps them.
unfoldable pub stored_params : Pairs → Pairs → Pairs
unfolding insert
stored_params kept [] = kept
stored_params kept ((k, v) ∷ ps) = stored_params (insert k v kept) ps

encoded_pair-free :
    (d : ℕ) (k v : Bytes)
    → encoded_byte d ≡ false
    → (b'=' == d) ≡ false
    → All (λ c. c < 256) k
    → All (λ c. c < 256) v
    → free d (encoded_pair (k, v)) ≡ true
unfolding encoded_pair
encoded_pair-free d k v h e ks vs =
    free-append d (percent_encode k) (b'=' ∷ percent_encode v)
      (encoded-free d (percent_encode k) h (percent_encode-encoded k ks))
      (rw e (encoded-free d (percent_encode v) h (percent_encode-encoded v vs)))

add_query_param-encoded_pair :
    (kept : Pairs) (k v : Bytes)
    → All (λ c. c < 256) k
    → All (λ c. c < 256) v
    → add_query_param kept (encoded_pair (k, v)) ≡ returned (insert k v kept)
unfolding add_query_param encoded_pair unreserved
add_query_param-encoded_pair kept k v ks vs =
    rw
      (
        cut-free b'=' (percent_encode k) (percent_encode v)
            (encoded-free b'=' (percent_encode k) refl (percent_encode-encoded k ks)),
        url_decode-percent_encode k ks,
        url_decode-percent_encode v vs,
        add_query_param,
      )
      refl

pair-some : (s t : Bytes) → is_empty (s ++ b'=' ∷ t) ≡ false
pair-some [] t = refl
pair-some (c ∷ s) t = refl

pair-last :
    (k v : Bytes)
    → All (λ c. c < 256) k
    → All (λ c. c < 256) v
    → getlines b'&' (encoded_pair (k, v)) ≡ encoded_pair (k, v) ∷ []
unfolding encoded_pair unreserved
pair-last k v ks vs =
    getlines-whole b'&' (encoded_pair (k, v)) (pair-some (percent_encode k) (percent_encode v))
      (encoded_pair-free b'&' k v refl refl ks vs)

add_query_params-pairs_text :
    (kept ps : Pairs)
    → ByteTexts ps
    → add_query_params kept (getlines b'&' (pairs_text ps)) ≡ returned (stored_params kept ps)
unfolding add_query_params pairs_text stored_params getlines unreserved
add_query_params-pairs_text kept [] h = refl
add_query_params-pairs_text kept ((k, v) ∷ []) (ks, vs, h) =
    rw (pair-last k v ks vs, add_query_param-encoded_pair kept k v ks vs) refl
add_query_params-pairs_text kept ((k, v) ∷ q ∷ ps) (ks, vs, h) =
    rw
      (
        getlines-line b'&' (encoded_pair (k, v)) (pairs_text (q ∷ ps))
            (encoded_pair-free b'&' k v refl refl ks vs),
        add_query_params,
        add_query_param-encoded_pair kept k v ks vs,
      )
      (add_query_params-pairs_text (insert k v kept) (q ∷ ps) h)

-- A path with its query.
unfoldable pub target : Bytes → Pairs → Bytes
unfolding pairs_text
target path [] = path
target path (p ∷ ps) = path ++ b'?' ∷ pairs_text (p ∷ ps)

pub parse_query_parameters-target :
    (r : HttpRequest) (path : Bytes) (ps : Pairs)
    → free b'?' path ≡ true
    → r.query_params ≡ []
    → ByteTexts ps
    → parse_query_parameters r (target path ps)
      ≡ returned (record r { path = path; query_params = stored_params [] ps })
unfolding parse_query_parameters target stored_params
parse_query_parameters-target r path [] no_query none_yet h =
    rw (cut-none b'?' path no_query, parse_query_parameters)
      (ap (λ ps. returned (record r { path = path; query_params = ps })) none_yet)
parse_query_parameters-target r path (p ∷ ps) no_query none_yet h =
    rw
      (
        cut-free b'?' path (pairs_text (p ∷ ps)) no_query,
        parse_query_parameters,
        none_yet,
        add_query_params-pairs_text [] (p ∷ ps) h,
      )
      refl

encoded_pair-spaceless :
    (k v : Bytes)
    → All (λ c. c < 256) k
    → All (λ c. c < 256) v
    → spaceless (encoded_pair (k, v)) ≡ true
unfolding encoded_pair is_space
encoded_pair-spaceless k v ks vs =
    spaceless-append (percent_encode k) (b'=' ∷ percent_encode v)
      (encoded-spaceless (percent_encode k) (percent_encode-encoded k ks))
      (encoded-spaceless (percent_encode v) (percent_encode-encoded v vs))

pairs_text-spaceless : (ps : Pairs) → ByteTexts ps → spaceless (pairs_text ps) ≡ true
unfolding pairs_text is_space
pairs_text-spaceless [] h = refl
pairs_text-spaceless ((k, v) ∷ []) (ks, vs, h) = encoded_pair-spaceless k v ks vs
pairs_text-spaceless ((k, v) ∷ q ∷ ps) (ks, vs, h) =
    spaceless-append (encoded_pair (k, v)) (b'&' ∷ pairs_text (q ∷ ps))
      (encoded_pair-spaceless k v ks vs) (pairs_text-spaceless (q ∷ ps) h)

pub target-spaceless :
    (path : Bytes) (ps : Pairs)
    → spaceless path ≡ true
    → ByteTexts ps
    → spaceless (target path ps) ≡ true
unfolding target is_space
target-spaceless path [] h b = h
target-spaceless path (p ∷ ps) h b =
    spaceless-append path (b'?' ∷ pairs_text (p ∷ ps)) h (pairs_text-spaceless (p ∷ ps) b)
