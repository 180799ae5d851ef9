-- ===== src/Http2/LostHeaders.antt =====
-- Requests in src/handlers/http2_handler.cpp whose stream is made by the HEADERS frame itself. nghttp2
-- calls `on_header_callback` for every field of the frame before `on_frame_recv_callback`.
use web_server_http.Common.{
  ℕ, true, List, [], ◌∷◌, ◌≡◌, refl, ap, Bytes, codes, ◌++◌, Option, none, some,
}
use web_server_http.Common.Dict.{lookup, lookup-insert_self, nat_key}
use web_server_http.FileHandler.{FileSystem}
use web_server_http.Http2.Callbacks.{headers, on_header, on_frame_recv}
use web_server_http.Http2.Callbacks.{process}
use web_server_http.Http2.Requests.{
  process_request, create_response_headers, answer, pushed_resources, push_all, send_response,
}
use web_server_http.Common.Dict.{insert, bytes_key}
use web_server_http.Common.Numbers.{to_string}
use web_server_http.Common.{equal}
use web_server_http.Http2.State.{put_stream}
use web_server_http.Http2.State.{Http2Stream, Http2Handler, response}

-- The fields of a header block, one callback each.
unfoldable pub deliver : ℕ → List (Bytes × Bytes) → Http2Handler → Http2Handler
unfolding on_header
deliver id [] h = h
deliver id ((name, value) ∷ fields) h = deliver id fields (on_header id name value h)

deliver-none :
    (id : ℕ) (fields : List (Bytes × Bytes)) (h : Http2Handler)
    → lookup id h.streams ≡ none
    → deliver id fields h ≡ h
unfolding deliver
deliver-none id [] h e = refl
deliver-none id ((name, value) ∷ fields) h e =
    let same : on_header id name value h ≡ h = rw (e, on_header) refl in
    rw same (deliver-none id fields h e)

-- The header fields of the answer 405.
abbrev pub not_allowed : List (Bytes × Bytes)
not_allowed =
    (codes ":status", codes "405")
    ∷ (codes "content-length", codes "18")
    ∷ (codes "content-type", codes "text/plain")
    ∷ []

abbrev pub status_of : Option Http2Stream → Option ℕ
status_of none = none
status_of (some st) = some st.status_code

-- A request without a body on a new stream gets a response with status 405 and no other submission,
-- whatever its header fields say: they come before the stream is in the map and are dropped, so its
-- method is empty.
pub new_request_status :
    (document_root : Bytes) (fs : FileSystem) (id : ℕ) (fields : List (Bytes × Bytes))
    (h : Http2Handler)
    → lookup id h.streams ≡ none
    → let after =
        (on_frame_recv document_root fs (deliver id fields h) (headers id true true true)).0 in
      (status_of (lookup id after.streams) ≡ some 405)
      × (after.submitted ≡ h.submitted ++ response id not_allowed ∷ [])
unfolding on_frame_recv process process_request put_stream answer pushed_resources push_all
    send_response create_response_headers insert to_string equal
new_request_status document_root fs id fields h e =
    rw (deliver-none id fields h e) (ap status_of (lookup-insert_self id _ _), refl)
