-- ===== src/FileHandler.antt =====
-- include/handlers/file_handler.h and src/handlers/file_handler.cpp. The file system is a parameter.
use web_server_http.Common.{
  ℕ, Bool, List, [], ◌∷◌, ◌++◌, Option, none, some, ◌==◌, if◌then◌else◌, get_last_or, Bytes, codes,
  equal, to_lower, String,
}
use web_server_http.Common.Dict.{lookup, bytes_key}

-- What the code asks of the system about a path: whether `stat` finds a regular file, what `ifstream`
-- reads if it opens, and the size that `stat` gives.
pub record FileSystem : Type 0 where
  pub is_regular : Bytes → Bool
  pub contents : Bytes → Option Bytes
  pub size : Bytes → Option ℕ

abbrev entry : String → String → Bytes × Bytes
entry extension mime = (codes extension, codes mime)

-- `initialize_mime_types`.
unfoldable pub mime_types : List (Bytes × Bytes)
mime_types =
    entry ".html" "text/html"
    ∷ entry ".htm" "text/html"
    ∷ entry ".css" "text/css"
    ∷ entry ".js" "application/javascript"
    ∷ entry ".json" "application/json"
    ∷ entry ".txt" "text/plain"
    ∷ entry ".xml" "application/xml"
    ∷ entry ".png" "image/png"
    ∷ entry ".jpg" "image/jpeg"
    ∷ entry ".jpeg" "image/jpeg"
    ∷ entry ".gif" "image/gif"
    ∷ entry ".svg" "image/svg+xml"
    ∷ entry ".ico" "image/x-icon"
    ∷ entry ".pdf" "application/pdf"
    ∷ entry ".zip" "application/zip"
    ∷ []

unfoldable pub resolve_path : Bytes → Bytes → Bytes
unfolding equal
resolve_path document_root path =
    if equal path (codes "/")
    then document_root ++ codes "/index.html"
    else if get_last_or path 0 == b'/'
    then document_root ++ (path ++ codes "index.html")
    else document_root ++ path

-- The text from the last dot on; empty if there is no dot.
unfoldable pub get_file_extension : Bytes → Bytes
get_file_extension [] = []
get_file_extension (c ∷ s) = elim (get_file_extension s) [
  | [] ↦ if c == b'.' then c ∷ s else []
  | x ∷ r ↦ x ∷ r
]

abbrev pub or_default : Option Bytes → Bytes
or_default none = codes "application/octet-stream"
or_default (some m) = m

unfoldable pub get_mime_type : Bytes → Bytes
unfolding get_file_extension mime_types lookup to_lower
get_mime_type path = or_default (lookup (to_lower (get_file_extension path)) mime_types)

module _ (document_root : Bytes) (fs : FileSystem) where
  open fs use {is_regular, contents, size}

  unfoldable pub file_exists : Bytes → Bool
  unfolding resolve_path
  file_exists path = is_regular (resolve_path document_root path)

  unfoldable pub read_file : Bytes → Bytes
  unfolding resolve_path
  read_file path = elim (contents (resolve_path document_root path)) [ none ↦ [] | some s ↦ s ]

  unfoldable pub get_file_size : Bytes → ℕ
  unfolding resolve_path
  get_file_size path = elim (size (resolve_path document_root path)) [ none ↦ 0 | some n ↦ n ]
