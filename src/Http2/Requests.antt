-- ===== src/Http2/Requests.antt =====
-- `process_request`, `send_response` and server push. A pushed resource is processed in turn, so the
-- calls nest; they run on fuel, and `none` stands for fuel that ran out.
use web_server_http.Common.{
  ℕ, zero, suc, true, List, [], ◌∷◌, ◌++◌, ◌||◌, Option, none, some, if◌then◌else◌, length, Bytes,
  codes, equal,
}
use web_server_http.Common.Dict.{insert, nat_key, bytes_key}
use web_server_http.Common.Numbers.{to_string}
use web_server_http.FileHandler.{FileSystem, file_exists, read_file, get_mime_type}
use web_server_http.Http2.State.{
  Http2Stream, new_stream, Http2Handler, response, push_promise, submit, put_stream,
}

abbrev content_type : Bytes
content_type = codes "content-type"

unfoldable pub identify_push_resources : Bytes → List Bytes
unfolding equal
identify_push_resources path =
    if equal path (codes "/") || equal path (codes "/index.html")
    then codes "/style.css" ∷ codes "/demo.html" ∷ []
    else if equal path (codes "/dashboard.html")
    then codes "/style.css" ∷ codes "/data.json" ∷ []
    else if equal path (codes "/demo.html")
    then codes "/style.css" ∷ []
    else []

-- `create_response_headers`, as names and values.
unfoldable pub create_response_headers : Http2Stream → List (Bytes × Bytes)
unfolding to_string
create_response_headers st =
    (codes ":status", to_string st.status_code)
    ∷ (codes "content-length", to_string (length st.response_body))
    ∷ st.response_headers

unfoldable pub send_response : Http2Stream → Http2Handler → Http2Handler
unfolding create_response_headers
send_response st h = submit (response st.stream_id (create_response_headers st)) h

abbrev pub not_found_page : Bytes
not_found_page = codes "<!DOCTYPE html><html><body><h1>404 Not Found</h1></body></html>"

abbrev answered : Http2Stream → ℕ → Bytes → Bytes → Http2Stream
answered st status text mime = record st {
  status_code = status;
  response_body = text;
  response_headers = insert content_type mime st.response_headers;
}

-- The path that the handler asks the file handler for.
unfoldable pub requested_file : Bytes → Bytes → Bytes
unfolding equal
requested_file document_root path =
    if equal path (codes "/") then document_root ++ codes "/index.html" else document_root ++ path

module _ (document_root : Bytes) (fs : FileSystem) where
  -- The answer to a request, before anything is pushed.
  unfoldable pub answer : Http2Stream → Http2Stream
  unfolding requested_file file_exists read_file get_mime_type insert equal
  answer st =
      let file_path = requested_file document_root st.path in
      if equal st.method (codes "GET")
      then (if file_exists document_root fs file_path
          then answered st 200 (read_file document_root fs file_path) (get_mime_type file_path)
          else answered st 404 not_found_page (codes "text/html"))
      else if equal st.method (codes "POST")
      then answered st 200 (codes "POST request received. Body: " ++ st.body) (codes "text/plain")
      else answered st 405 (codes "Method Not Allowed") (codes "text/plain")

  -- What is pushed along with the answer: resources of a page that was found.
  unfoldable pub pushed_resources : Http2Stream → List Bytes
  pushed_resources st =
      let file_path = requested_file document_root st.path in
      if equal st.method (codes "GET")
      then (if file_exists document_root fs file_path
          then (if st.push_enabled
              then (if equal (get_mime_type file_path) (codes "text/html")
                  then identify_push_resources st.path
                  else [])
              else [])
          else [])
      else []

  abbrev pub pushed_stream : ℕ → Bytes → Http2Stream
  pushed_stream id path = record (new_stream id) {
    method = codes "GET";
    path = path;
    headers_complete = true;
    request_complete = true;
  }

  abbrev pub push_headers : Bytes → List (Bytes × Bytes)
  push_headers path =
      (codes ":method", codes "GET") ∷ (codes ":path", path) ∷ (codes ":scheme", codes "http") ∷ []

  abbrev and_then : Option Http2Handler → (Http2Handler → Option Http2Handler) → Option Http2Handler
  and_then none f = none
  and_then (some h) f = f h

  -- The id that nghttp2 gives to the next promise, if it gives one.
  abbrev pub next_id : List (Option ℕ) → Option ℕ
  next_id [] = none
  next_id (id ∷ ids) = id

  abbrev pub later_ids : List (Option ℕ) → List (Option ℕ)
  later_ids [] = []
  later_ids (id ∷ ids) = ids

  -- `push_resource`, with the call of `process_request` as an argument.
  unfoldable pub push_resource :
      (Http2Stream → Http2Handler → Option Http2Handler)
      → ℕ
      → Bytes
      → Http2Handler
      → Option Http2Handler
  unfolding put_stream
  push_resource process parent path h =
      let asked = record (submit (push_promise parent (push_headers path)) h) {
        promised_ids = later_ids h.promised_ids;
      } in
      elim (next_id h.promised_ids) [
        | none ↦ some asked
        | some id ↦ process (pushed_stream id path) (put_stream (pushed_stream id path) asked)
      ]

  -- The loop over the resources.
  unfoldable pub push_all :
      (Http2Stream → Http2Handler → Option Http2Handler)
      → ℕ
      → List Bytes
      → Http2Handler
      → Option Http2Handler
  unfolding push_resource
  push_all process parent [] h = some h
  push_all process parent (path ∷ paths) h =
      and_then (push_resource process parent path h) (push_all process parent paths)

  -- `process_request` on a stream of the map.
  unfoldable pub process_request : ℕ → Http2Stream → Http2Handler → Option Http2Handler
  process_request zero st h = none
  process_request (suc fuel) st h =
      let rest =
        and_then
          (push_all (process_request fuel) st.stream_id (pushed_resources st)
            (put_stream (answer st) h))
          (λ h'. some (send_response (answer st) h')) in
      if st.request_complete then rest else some h
