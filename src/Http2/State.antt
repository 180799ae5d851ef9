-- ===== src/Http2/State.antt =====
-- HTTP2Stream and the members of HTTP2Handler. What the handler hands to nghttp2 is kept as a list of
-- submissions; the ids that `nghttp2_submit_push_promise` will return are given in advance.
use web_server_http.Common.{ℕ, Bool, true, false, List, [], ◌∷◌, ◌++◌, Option, Bytes}
use web_server_http.Common.Dict.{insert, nat_key}

pub record Http2Stream : Type 0 where
  pub stream_id : ℕ
  pub method : Bytes
  pub path : Bytes
  pub headers : List (Bytes × Bytes)
  pub body : Bytes
  pub headers_complete : Bool
  pub request_complete : Bool
  pub response_body : Bytes
  pub response_headers : List (Bytes × Bytes)
  pub status_code : ℕ
  pub response_data_sent : ℕ
  pub push_enabled : Bool

abbrev pub new_stream : ℕ → Http2Stream
new_stream id = record {
  stream_id = id;
  method = [];
  path = [];
  headers = [];
  body = [];
  headers_complete = false;
  request_complete = false;
  response_body = [];
  response_headers = [];
  status_code = 200;
  response_data_sent = 0;
  push_enabled = true;
}

pub record StreamPriority : Type 0 where
  pub stream_id : ℕ
  pub dependency : ℕ
  pub weight : ℕ
  pub exclusive : Bool

-- The default constructor.
abbrev pub default_priority : StreamPriority
default_priority = record { stream_id = 0; dependency = 0; weight = 16; exclusive = false }

-- The settings that the server sends.
pub data Setting : Type 0 where
  max_concurrent_streams initial_window_size max_frame_size enable_push max_header_list_size :
      Setting

-- A call of an `nghttp2_submit_…` function.
pub data Submission : Type 0 where
  response : ℕ → List (Bytes × Bytes) → Submission
  window_update : ℕ → ℕ → Submission
  push_promise : ℕ → List (Bytes × Bytes) → Submission
  priority : ℕ → ℕ → ℕ → Bool → Submission
  server_settings : List (Setting × ℕ) → Submission

pub record Http2Handler : Type 0 where
  pub streams : List (ℕ × Http2Stream)
  pub stream_priorities : List (ℕ × StreamPriority)
  pub submitted : List Submission
  pub promised_ids : List (Option ℕ)

abbrev pub submit : Submission → Http2Handler → Http2Handler
submit s h = record h { submitted = h.submitted ++ s ∷ [] }

unfoldable pub put_stream : Http2Stream → Http2Handler → Http2Handler
unfolding insert
put_stream st h = record h { streams = insert st.stream_id st h.streams }
