-- ===== src/Http2/Tests.antt =====
-- The theorems on HTTP/2 at concrete inputs.
use web_server_http.Common.{
  true, List, [], ◌∷◌, ◌≡◌, ◌≢◌, ◌↔◌, refl, none, some, take, drop, codes, Bytes,
}
use web_server_http.Common.Dict.{lookup, nat_key}
use web_server_http.FileHandler.{FileSystem}
use web_server_http.Http2.Callbacks.{headers, on_frame_recv}
use web_server_http.Common.{◌++◌, ◌≤◌, length}
use web_server_http.Http2.Transport.{took, flush_output}
use web_server_http.Http2.Flushing.{flush_output_keeps_iff}
use web_server_http.Http2.LostHeaders.{deliver, not_allowed, status_of, new_request_status}
use web_server_http.Http2.Requests.{process_request}
use web_server_http.Common.{arith, false}
use web_server_http.Http2.Output.{given, AllTake, process_turns-given}
use web_server_http.Http2.Session.{
  Session, Turn, frame_received, frame_written, process_turn, process_turns,
}
use web_server_http.Http2.State.{Http2Stream, Http2Handler, new_stream, response}
use web_server_http.Http2.Streaming.{read_all, sum, read_all_exact}
use web_server_http.Http2.Termination.{process_request_ends}
use web_server_http.Http2.Transport.{blocked}

-- Every path is a file.
abbrev all_files : FileSystem
all_files = record { is_regular = λ p. true; contents = λ p. some p; size = λ p. none }

-- Two pushes will get a stream.
abbrev new_handler : Http2Handler
new_handler = record {
  streams = [];
  stream_priorities = [];
  submitted = [];
  promised_ids = some 2 ∷ some 4 ∷ [];
}

abbrev home_page : Http2Stream
home_page = record (new_stream 1) {
  method = codes "GET";
  path = codes "/";
  request_complete = true;
}

process_request_ends_example :
    process_request (codes "./public") all_files 3 home_page new_handler ≢ none
process_request_ends_example =
    process_request_ends (codes "./public") all_files home_page new_handler

abbrev answered_stream : Http2Stream
answered_stream = record home_page { response_body = codes "hello" }

read_all_exact_example :
    (read_all (2 ∷ 2 ∷ 9 ∷ []) answered_stream).0
    ≡ take (sum (2 ∷ 2 ∷ 9 ∷ [])) (drop 0 (codes "hello"))
read_all_exact_example = read_all_exact (2 ∷ 2 ∷ 9 ∷ []) answered_stream

flush_output_keeps_iff_example :
    let (result, kept, wire) = flush_output true (took 2) (codes "abc") in
    (wire ++ kept ≡ codes "abc") ↔ (length (codes "abc") ≤ 2)
flush_output_keeps_iff_example = flush_output_keeps_iff 2 (codes "abc")

abbrev get_home : List (Bytes × Bytes)
get_home = (codes ":method", codes "GET") ∷ (codes ":path", codes "/") ∷ []

new_request_status_example :
    let after =
      (on_frame_recv
        (codes "./public")
        all_files
        (deliver 1 get_home new_handler)
        (headers 1 true true true)).0 in
    (status_of (lookup 1 after.streams) ≡ some 405)
    × (after.submitted ≡ new_handler.submitted ++ response 1 not_allowed ∷ [])
unfolding lookup
new_request_status_example =
    new_request_status (codes "./public") all_files 1 get_home new_handler refl

-- The first call sends a part, the second finds the socket busy and the third sends the rest.
abbrev three_turns : List Turn
three_turns =
    record {
      input = codes "x";
      called = frame_received (headers 1 true true true) ∷ frame_written (codes "ab") ∷ [];
      recv_result = some 1;
      flushing = record { frames = codes "cd" ∷ []; session_ok = true; write = took 5 };
    }
    ∷ record {
      input = codes "y";
      called = [];
      recv_result = some 1;
      flushing = record { frames = codes "ef" ∷ []; session_ok = true; write = blocked };
    }
    ∷ record {
      input = codes "z";
      called = [];
      recv_result = some 1;
      flushing = record { frames = codes "g" ∷ []; session_ok = true; write = took 3 };
    }
    ∷ []

abbrev tls_session : Session
tls_session = record {
  handler = new_handler;
  output_buffer = codes "+";
  preface_processed = false;
  is_tls_connection = true;
}

whole_writes : AllTake (codes "./public") all_files three_turns tls_session
unfolding AllTake process_turn
whole_writes = (omega arith, (tt, (omega arith, tt)))

process_turns-given_example :
    let (s1, wire) = process_turns (codes "./public") all_files three_turns tls_session in
    wire ++ s1.output_buffer
    ≡ codes "+" ++ given (codes "./public") all_files three_turns tls_session
process_turns-given_example =
    process_turns-given (codes "./public") all_files three_turns tls_session whole_writes
