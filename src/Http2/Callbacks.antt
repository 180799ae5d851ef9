-- ===== src/Http2/Callbacks.antt =====
-- The callbacks that nghttp2 calls.
use web_server_http.Common.{
  ℕ, ◌+◌, ◌-◌, Bool, true, false, ◌++◌, Option, none, some, ltb, leb, if◌then◌else◌, length, take,
  drop, min, Bytes, codes, equal,
}
use web_server_http.Common.Dict.{lookup, insert, erase, nat_key, bytes_key}
use web_server_http.FileHandler.{FileSystem}
use web_server_http.Http2.Priority.{handle_priority_frame}
use web_server_http.Http2.Requests.{process_request}
use web_server_http.Http2.State.{
  Http2Stream, new_stream, Http2Handler, window_update, submit, put_stream,
}

-- The frames that `on_frame_recv_callback` tells apart. A HEADERS frame has its stream, whether it
-- opens a request, END_HEADERS and END_STREAM; a DATA frame its stream, END_STREAM and its length.
pub data Frame : Type 0 where
  headers : ℕ → Bool → Bool → Bool → Frame
  payload : ℕ → Bool → ℕ → Frame
  settings window_updated other : Frame
  goaway : Frame
  priority_frame : ℕ → ℕ → ℕ → Bool → Frame

-- A page pushes pages, and these push only other files.
abbrev pub push_depth : ℕ
push_depth = 3

abbrev pub or_else : Http2Handler → Option Http2Handler → Http2Handler
or_else h none = h
or_else h (some h') = h'

module _ (document_root : Bytes) (fs : FileSystem) where
  -- A call of `process_request` from a callback.
  unfoldable pub process : Http2Stream → Http2Handler → Http2Handler
  unfolding process_request
  process st h = or_else h (process_request document_root fs push_depth st h)

  abbrev credit : ℕ → ℕ → Http2Handler → Http2Handler
  credit id n h = if ltb 0 n then submit (window_update 0 n) (submit (window_update id n) h) else h

  unfoldable pub on_frame_recv : Http2Handler → Frame → Http2Handler × Bool
  unfolding process put_stream lookup handle_priority_frame
  on_frame_recv h (headers id false end_headers end_stream) = (h, true)
  on_frame_recv h (headers id true end_headers end_stream) =
      let st = record (new_stream id) {
        headers_complete = end_headers;
        request_complete = end_stream;
      } in
      (if end_stream then process st (put_stream st h) else put_stream st h, true)
  on_frame_recv h (payload id end_stream n) =
      let ended : Http2Handler = elim (lookup id h.streams) [
        | none ↦ h
        | some st ↦
            let full = record st { request_complete = true } in process full (put_stream full h)
      ] in
      (credit id n (if end_stream then ended else h), true)
  on_frame_recv h goaway = (h, false)
  on_frame_recv h (priority_frame id dependency weight exclusive) =
      (handle_priority_frame id dependency weight exclusive h, true)
  on_frame_recv h _ = (h, true)

unfoldable pub on_stream_close : ℕ → Http2Handler → Http2Handler
unfolding erase
on_stream_close id h = record h { streams = erase id h.streams }

-- A header field of a request.
unfoldable pub on_header : ℕ → Bytes → Bytes → Http2Handler → Http2Handler
unfolding lookup insert put_stream equal
on_header id name value h = elim (lookup id h.streams) [
  | none ↦ h
  | some st ↦
      put_stream
        (if equal name (codes ":method")
          then record st { method = value }
          else if equal name (codes ":path")
          then record st { path = value }
          else record st { headers = insert name value st.headers })
        h
]

unfoldable pub on_data_chunk_recv : ℕ → Bytes → Http2Handler → Http2Handler
unfolding lookup put_stream
on_data_chunk_recv id chunk h = elim (lookup id h.streams) [
  | none ↦ h
  | some st ↦ put_stream (record st { body = st.body ++ chunk }) h
]

-- `data_source_read_callback`: the stream, the bytes copied, and whether the end is flagged.
unfoldable pub data_source_read : ℕ → Http2Stream → Http2Stream × Bytes × Bool
data_source_read room st =
    let remaining = length st.response_body - st.response_data_sent in
    let copy_len = min room remaining in
    let sent = st.response_data_sent + copy_len in
    (
      record st { response_data_sent = sent },
      take copy_len (drop st.response_data_sent st.response_body),
      leb (length st.response_body) sent,
    )
