-- ===== src/Http2/Logging.antt =====
-- The lines that the callbacks of src/handlers/http2_handler.cpp log, and `get_content_type`.
use web_server_http.Common.{
  ℕ, Bool, true, false, [], ◌∷◌, ◌++◌, ◌||◌, Option, none, some, if◌then◌else◌, Bytes, codes, equal,
  to_lower,
}
use web_server_http.Common.Numbers.{to_string}
use web_server_http.FileHandler.{get_file_extension}

-- The frames that `on_frame_send_callback` tells apart.
pub data SentFrame : Type 0 where
  sent_headers : ℕ → SentFrame
  sent_payload : ℕ → ℕ → SentFrame
  sent_settings : (ack : Bool) → SentFrame
  sent_other : SentFrame

unfoldable pub on_frame_send : SentFrame → Option Bytes
unfolding to_string
on_frame_send (sent_headers id) = some (codes "Sent HEADERS frame for stream " ++ to_string id)
on_frame_send (sent_payload id n) =
    some
      (codes "Sent DATA frame for stream " ++ (to_string id ++ (codes " length: " ++ to_string n)))
on_frame_send (sent_settings true) = some (codes "Sent SETTINGS ACK")
on_frame_send (sent_settings false) = some (codes "Sent SETTINGS frame")
on_frame_send sent_other = none

unfoldable pub on_error : Bytes → Bytes
on_error msg = codes "HTTP/2 error: " ++ msg

-- An extension in lower case, without the dot.
unfoldable pub type_of_extension : Bytes → Bytes
unfolding equal
type_of_extension ext =
    if equal (codes "html") ext || equal (codes "htm") ext
    then codes "text/html"
    else if equal (codes "css") ext
    then codes "text/css"
    else if equal (codes "js") ext
    then codes "application/javascript"
    else if equal (codes "json") ext
    then codes "application/json"
    else if equal (codes "png") ext
    then codes "image/png"
    else if equal (codes "jpg") ext || equal (codes "jpeg") ext
    then codes "image/jpeg"
    else if equal (codes "gif") ext
    then codes "image/gif"
    else if equal (codes "svg") ext
    then codes "image/svg+xml"
    else if equal (codes "txt") ext
    then codes "text/plain"
    else codes "application/octet-stream"

-- What is behind the last dot, if there is one.
unfoldable pub get_content_type : Bytes → Bytes
unfolding get_file_extension type_of_extension to_lower
get_content_type path = elim (get_file_extension path) [
  | [] ↦ codes "application/octet-stream"
  | dot ∷ ext ↦ type_of_extension (to_lower ext)
]
