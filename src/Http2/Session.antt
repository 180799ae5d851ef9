-- ===== src/Http2/Session.antt =====
-- A whole HTTP2Handler: `initialize`, `send_settings`, the buffer that `send_callback` fills, and calls
-- of `process_data` with the callbacks that nghttp2 makes meanwhile. What nghttp2 and the socket do is
-- given for each call.
use web_server_http.Common.{
  ℕ, Bool, true, false, List, [], ◌∷◌, ◌++◌, Option, none, some, if◌then◌else◌, is_empty, Bytes,
}
use web_server_http.FileHandler.{FileSystem}
use web_server_http.Http2.Callbacks.{
  Frame, on_frame_recv, on_header, on_data_chunk_recv, on_stream_close,
}
use web_server_http.Http2.State.{
  Http2Handler, Setting, max_concurrent_streams, initial_window_size, max_frame_size, enable_push,
  max_header_list_size, server_settings, submit,
}
use web_server_http.Http2.Transport.{Write, Processed, process_data, flush_output}

-- `handler` has the streams and what was submitted.
pub record Session : Type 0 where
  pub handler : Http2Handler
  pub output_buffer : Bytes
  pub preface_processed : Bool
  pub is_tls_connection : Bool

-- The constructor: `tls` says whether there is an SSL object.
unfoldable pub new_session : Bool → List (Option ℕ) → Session
new_session tls promised_ids = record {
  handler = record {
    streams = [];
    stream_priorities = [];
    submitted = [];
    promised_ids = promised_ids;
  };
  output_buffer = [];
  preface_processed = false;
  is_tls_connection = tls;
}

unfoldable pub send_callback : Bytes → Session → Session
send_callback bytes s = record s { output_buffer = s.output_buffer ++ bytes }

unfoldable pub send_all : List Bytes → Session → Session
unfolding send_callback
send_all [] s = s
send_all (bytes ∷ more) s = send_all more (send_callback bytes s)

-- A call of `flush_output`: what `nghttp2_session_send` hands to `send_callback`, whether it succeeds,
-- and what the socket does with the write.
pub record Flush : Type 0 where
  pub frames : List Bytes
  pub session_ok : Bool
  pub write : Write

-- The session behind the call, its result, and what went out.
unfoldable pub flush : Flush → Session → Session × Bool × Bytes
unfolding send_all flush_output
flush f s =
    let filled = send_all f.frames s in
    let (ok, kept, wire) = flush_output f.session_ok f.write filled.output_buffer in
    (record filled { output_buffer = kept }, ok, wire)

abbrev pub initial_settings : List (Setting × ℕ)
initial_settings =
    (max_concurrent_streams, 100)
    ∷ (initial_window_size, 65536)
    ∷ (max_frame_size, 16384)
    ∷ (enable_push, 1)
    ∷ (max_header_list_size, 8192)
    ∷ []

abbrev with_settings : Session → Session
with_settings s = record s { handler = submit (server_settings initial_settings) s.handler }

-- `accepted` is whether `nghttp2_submit_settings` returns 0.
unfoldable pub send_settings : Bool → Flush → Session → Session × Bool × Bytes
unfolding flush
send_settings true f s = flush f (with_settings s)
send_settings false f s = (with_settings s, false, [])

-- `made` is whether `nghttp2_session_server_new` returns 0.
unfoldable pub initialize : Bool → Bool → Flush → Session → Session × Bool × Bytes
unfolding send_settings
initialize true accepted f s = send_settings accepted f s
initialize false accepted f s = (s, false, [])

unfoldable pub enable_server_push : Bool → Http2Handler → Http2Handler
enable_server_push enable h =
    submit (server_settings ((enable_push, (if enable then 1 else 0)) ∷ [])) h

-- What nghttp2 calls back for while it reads.
pub data Callback : Type 0 where
  frame_received : Frame → Callback
  header_received : ℕ → Bytes → Bytes → Callback
  chunk_received : ℕ → Bytes → Callback
  stream_closed : ℕ → Callback
  frame_written : Bytes → Callback

-- A call of `process_data`: the data, the callbacks of `nghttp2_session_mem_recv` and what it returns,
-- `none` if negative, and the flush.
pub record Turn : Type 0 where
  pub input : Bytes
  pub called : List Callback
  pub recv_result : Option ℕ
  pub flushing : Flush

-- What `process_data` makes of the data, given the result of the flush.
unfoldable pub taken_in : Bool → Turn → Session → Processed
unfolding process_data
taken_in flushed t s =
    process_data s.is_tls_connection s.preface_processed t.recv_result flushed t.input

module _ (document_root : Bytes) (fs : FileSystem) where
  unfoldable pub callback : Callback → Session → Session
  unfolding on_frame_recv on_header on_data_chunk_recv on_stream_close send_callback
  callback (frame_received frame) s = record s {
    handler = (on_frame_recv document_root fs s.handler frame).0;
  }
  callback (header_received id name value) s = record s {
    handler = on_header id name value s.handler;
  }
  callback (chunk_received id chunk) s = record s {
    handler = on_data_chunk_recv id chunk s.handler;
  }
  callback (stream_closed id) s = record s { handler = on_stream_close id s.handler }
  callback (frame_written bytes) s = send_callback bytes s

  unfoldable pub callbacks : List Callback → Session → Session
  unfolding callback
  callbacks [] s = s
  callbacks (c ∷ cs) s = callbacks cs (callback c s)

  -- `process_data` behind the test of the preface: nothing is left of the data; nghttp2 fails; or it
  -- takes the data and the output is flushed.
  unfoldable pub turn_by :
      (nothing : Bool) → Option ℕ → Turn → (Bool → Option ℕ) → Session → Session × Option ℕ × Bytes
  unfolding callbacks flush
  turn_by true received t result s = (s, result true, [])
  turn_by false none t result s = (callbacks t.called s, none, [])
  turn_by false (some n) t result s =
      let (s1, ok, wire) = flush t.flushing (callbacks t.called s) in (s1, result ok, wire)

  -- A call of `process_data`: the session, the result (`none` for -1), and what went out.
  unfoldable pub process_turn : Turn → Session → Session × Option ℕ × Bytes
  unfolding turn_by taken_in
  process_turn t s =
      turn_by (is_empty (taken_in true t s).handed_over) t.recv_result t
        (λ flushed. (taken_in flushed t s).result)
        (record s { preface_processed = (taken_in true t s).preface_processed })

  -- Calls of `process_data` up to the first that fails.
  unfoldable pub process_turns : List Turn → Session → Session × Bytes
  unfolding process_turn
  process_turns [] s = (s, [])
  process_turns (t ∷ ts) s =
      let (s1, result, wire) = process_turn t s in
      let (s2, later) = process_turns ts s1 in
      elim result [ none ↦ (s1, wire) | some n ↦ (s2, wire ++ later) ]
