-- ===== src/Http2/Types.antt =====
-- The two tables of content types: `get_content_type` of http2_handler.cpp and `get_mime_type` of
-- file_handler.cpp.
use web_server_http.Common.{
  map, none, Bool, true, false, List, [], ◌∷◌, ◌≡◌, refl, ap, ◌∙◌, sym, subst, ◌||◌, ◌==◌,
  if◌then◌else◌, Bytes, codes, equal, equal_iff, to_lower, Bool-cases, List-cases, inl, inr, arith,
}
use web_server_http.Common.Dict.{lookup, bytes_key}
use web_server_http.FileHandler.{get_file_extension, get_mime_type, mime_types, or_default}
use web_server_http.Http2.Logging.{get_content_type, type_of_extension}

abbrev listed : Bytes → List Bytes → Bool
listed x [] = false
listed x (k ∷ ks) = equal k x || listed x ks

-- Two functions have the same values at the listed keys.
abbrev Agree : (Bytes → Bytes) → (Bytes → Bytes) → List Bytes → Type 0
Agree f g [] = Unit
Agree f g (k ∷ ks) = (f k ≡ g k) × Agree f g ks

Agree-listed :
    (f g : Bytes → Bytes) (x : Bytes) (ks : List Bytes)
    → Agree f g ks
    → listed x ks ≡ true
    → f x ≡ g x
Agree-listed f g x [] a h = absurd (ground (arith, h))
Agree-listed f g x (k ∷ ks) (e, a) h = elim (Bool-cases (equal k x)) [
  | inl q ↦ subst (λ y. f y ≡ g y) ((equal_iff k x).0 q) e
  | inr q ↦ Agree-listed f g x ks a (rw q at h)
]

-- The types that only the file handler knows.
abbrev pub only_files : Bytes → Bool
only_files ext = listed ext (codes ".xml" ∷ codes ".ico" ∷ codes ".pdf" ∷ codes ".zip" ∷ [])

-- What the file handler gives for a text behind the dot, as far as the other table knows it.
abbrev shared_type : Bytes → Bytes
unfolding lookup mime_types equal
shared_type ext =
    if only_files (b'.' ∷ ext)
    then codes "application/octet-stream"
    else or_default (lookup (b'.' ∷ ext) mime_types)

abbrev extensions : List Bytes
extensions =
    codes "html"
    ∷ codes "htm"
    ∷ codes "css"
    ∷ codes "js"
    ∷ codes "json"
    ∷ codes "png"
    ∷ codes "jpg"
    ∷ codes "jpeg"
    ∷ codes "gif"
    ∷ codes "svg"
    ∷ codes "txt"
    ∷ codes "xml"
    ∷ codes "ico"
    ∷ codes "pdf"
    ∷ codes "zip"
    ∷ []

extensions-Agree : Agree type_of_extension shared_type extensions
unfolding type_of_extension shared_type lookup mime_types equal
extensions-Agree = (
  refl,
  (
    refl,
    (
      refl,
      (
        refl,
        (refl, (refl, (refl, (refl, (refl, (refl, (refl, (refl, (refl, (refl, (refl, tt))))))))))),
      ),
    ),
  ),
)

split_listed :
    (x k : Bytes) (ks : List Bytes)
    → listed x (k ∷ ks) ≡ false
    → (equal k x ≡ false) × (listed x ks ≡ false)
split_listed x k ks h = elim (Bool-cases (equal k x)) [
  | inl q ↦ absurd (ground (arith, q, h))
  | inr q ↦ (q, rw q at h)
]

-- Nothing is found under a key that is not in the table.
lookup-unlisted :
    (x : Bytes) (m : List (Bytes × Bytes)) → listed x (map (λ e. e.0) m) ≡ false → lookup x m ≡ none
unfolding lookup
lookup-unlisted x [] h = refl
lookup-unlisted x ((k, v) ∷ m) h =
    let (q, r) = split_listed x k (map (λ e. e.0) m) h in rw q (lookup-unlisted x m r)

unlisted-key :
    (x k : Bytes) (ks : List Bytes) → listed x ks ≡ false → listed k ks ≡ true → equal k x ≡ false
unlisted-key x k ks h l = elim (Bool-cases (equal k x)) [
  | inl q ↦
      let e : listed k ks ≡ listed x ks = ap (λ y. listed y ks) ((equal_iff k x).0 q) in
      absurd (ground (arith, sym l ∙ e ∙ h))
  | inr q ↦ q
]

abbrev all_listed : List Bytes → List Bytes → Bool
all_listed [] ks = true
all_listed (j ∷ js) ks = if listed j ks then all_listed js ks else false

unlisted-fewer :
    (x : Bytes) (js ks : List Bytes)
    → listed x ks ≡ false
    → all_listed js ks ≡ true
    → listed x js ≡ false
unlisted-fewer x [] ks h a = refl
unlisted-fewer x (j ∷ js) ks h a = elim (Bool-cases (listed j ks)) [
  | inl q ↦ rw (unlisted-key x j ks h q) (unlisted-fewer x js ks h (rw q at a))
  | inr q ↦ absurd (ground (arith, q, a))
]

unlisted_type :
    (x : Bytes)
    → listed x extensions ≡ false
    → type_of_extension x ≡ codes "application/octet-stream"
unfolding equal type_of_extension
unlisted_type x h =
    let no = unlisted-key x in
    rw
      (
        no (codes "html") extensions h refl,
        no (codes "htm") extensions h refl,
        no (codes "css") extensions h refl,
        no (codes "js") extensions h refl,
        no (codes "json") extensions h refl,
        no (codes "png") extensions h refl,
        no (codes "jpg") extensions h refl,
        no (codes "jpeg") extensions h refl,
        no (codes "gif") extensions h refl,
        no (codes "svg") extensions h refl,
        no (codes "txt") extensions h refl,
        type_of_extension,
      )
      refl

unlisted_shared :
    (x : Bytes) → listed x extensions ≡ false → shared_type x ≡ codes "application/octet-stream"
unfolding shared_type mime_types equal
unlisted_shared x h =
    let only : only_files (b'.' ∷ x) ≡ false =
      unlisted-fewer x (codes "xml" ∷ codes "ico" ∷ codes "pdf" ∷ codes "zip" ∷ []) extensions h
        refl in
    let missing : lookup (b'.' ∷ x) mime_types ≡ none = lookup-unlisted (b'.' ∷ x) mime_types (
      unlisted-fewer x
        (codes "html"
          ∷ codes "htm"
          ∷ codes "css"
          ∷ codes "js"
          ∷ codes "json"
          ∷ codes "txt"
          ∷ codes "xml"
          ∷ codes "png"
          ∷ codes "jpg"
          ∷ codes "jpeg"
          ∷ codes "gif"
          ∷ codes "svg"
          ∷ codes "ico"
          ∷ codes "pdf"
          ∷ codes "zip"
          ∷ [])
        extensions h refl) in
    rw (only, missing) refl

type-shared : (x : Bytes) → type_of_extension x ≡ shared_type x
type-shared x = elim (Bool-cases (listed x extensions)) [
  | inl q ↦ Agree-listed type_of_extension shared_type x extensions extensions-Agree q
  | inr q ↦ unlisted_type x q ∙ sym (unlisted_shared x q)
]

abbrev starts_dot : Bytes → Bool
starts_dot [] = true
starts_dot (c ∷ s) = c == b'.'

get_file_extension-dot : (path : Bytes) → starts_dot (get_file_extension path) ≡ true
unfolding get_file_extension
get_file_extension-dot [] = refl
get_file_extension-dot (c ∷ s) = elim (List-cases (get_file_extension s)) [
  | inl n ↦ rw (n, get_file_extension) (ground arith)
  | inr (y, r, q) ↦ rw (q, get_file_extension) (ap starts_dot (sym q) ∙ get_file_extension-dot s)
]

abbrev by_dot : Bytes → Bytes
unfolding type_of_extension to_lower
by_dot [] = codes "application/octet-stream"
by_dot (c ∷ ext) = type_of_extension (to_lower ext)

by_dot-dot : (ext : Bytes) → by_dot (b'.' ∷ ext) ≡ shared_type (to_lower ext)
unfolding by_dot
by_dot-dot ext = type-shared (to_lower ext)

by_dot-shared :
    (e : Bytes)
    → starts_dot e ≡ true
    → by_dot e ≡ (
        if only_files (to_lower e)
        then codes "application/octet-stream"
        else or_default (lookup (to_lower e) mime_types))
unfolding by_dot shared_type lookup mime_types equal to_lower
by_dot-shared [] h = refl
by_dot-shared (c ∷ ext) h =
    let e : b'.' ≡ c = ground (arith, h) in
    subst
      (λ x. by_dot (x ∷ ext) ≡ (
        if only_files (to_lower (x ∷ ext))
        then codes "application/octet-stream"
        else or_default (lookup (to_lower (x ∷ ext)) mime_types)))
      e (by_dot-dot ext)

get_content_type-by_dot : (path : Bytes) → get_content_type path ≡ by_dot (get_file_extension path)
unfolding get_content_type by_dot
get_content_type-by_dot path = elim (List-cases (get_file_extension path)) [
  | inl n ↦ rw (n, get_content_type) refl
  | inr (c, ext, q) ↦ rw (q, get_content_type) refl
]

-- The type that the HTTP/2 handler has for a path is the one that the file handler has, but for the four
-- extensions that only the file handler knows: for these it is the one for unknown files.
pub get_content_type-get_mime_type :
    (path : Bytes)
    → get_content_type path ≡ (
        if only_files (to_lower (get_file_extension path))
        then codes "application/octet-stream"
        else get_mime_type path)
unfolding get_mime_type
get_content_type-get_mime_type path =
    get_content_type-by_dot path
    ∙ by_dot-shared (get_file_extension path) (get_file_extension-dot path)
