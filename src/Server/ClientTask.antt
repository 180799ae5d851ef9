-- ===== src/Server/ClientTask.antt =====
-- `handle_client_task` of src/core/server.cpp, the older task of a client, which reads the flag of the
-- signal handler and tells HTTP/2 by its preface, with the functions that only it uses.
pub mod Ending
use web_server_http.Common.{
  ℕ, ◌+◌, Bool, List, [], ◌∷◌, ◌++◌, ◌&&◌, ◌||◌, not, Option, none, some, if◌then◌else◌, is_empty,
  is_prefix, contains, ltb, leb, length, take, Bytes, codes, returned, threw,
}
use web_server_http.Common.Numbers.{to_string}
use web_server_http.Http2.Transport.{connection_preface}
use web_server_http.HttpRequest.{HttpRequest, new_request, parse}
use web_server_http.Metrics.{PerformanceMetrics, record_request}
use web_server_http.Server.Api.{Environment}
use web_server_http.Server.Http2Connection.{Http2End}
use web_server_http.Server.Io.{SendEvent, send_left, buffer_size, header_limit, is_websocket_path}
use web_server_http.Server.Response.{get_400_response, blank_line}
use web_server_http.Server.Routing.{handle_request}
use web_server_http.Server.State.{
  Server, add_connection_safe, update_connection_timestamp_safe, remove_connection_safe,
  unregister_socket,
}
use web_server_http.WebSocket.Handshake.{is_websocket_request, generate_websocket_response}

-- What is on the wire. The loop is that of `send_response_safe` without the test of a flag.
unfoldable pub send_response : Bytes → List SendEvent → Bytes
unfolding send_left
send_response response es = (send_left response es).1

-- The operations on the connection table that only try for the lock.
unfoldable pub add_connection : (asked locked : Bool) → ℕ → ℕ → Server → Server
unfolding add_connection_safe
add_connection asked locked now socket s =
    if asked || not locked then s else add_connection_safe now socket s

unfoldable pub update_connection_timestamp : (asked locked : Bool) → ℕ → ℕ → Server → Server
unfolding update_connection_timestamp_safe
update_connection_timestamp asked locked now socket s =
    if asked || not locked then s else update_connection_timestamp_safe now socket s

unfoldable pub remove_connection : (locked : Bool) → ℕ → Server → Server
unfolding remove_connection_safe
remove_connection locked socket s = if locked then remove_connection_safe socket s else s

-- The name of a client from the milliseconds of the clock and a static counter, which goes up.
unfoldable pub generate_client_id : ℕ → ℕ → Bytes × ℕ
unfolding to_string
generate_client_id timestamp counter =
    (codes "client_" ++ (to_string timestamp ++ (codes "_" ++ to_string counter)), counter + 1)

-- The loop that reads on. The pieces end where `recv` gives nothing more or the flag is up.
unfoldable pub read_headers : Bytes → List Bytes → Bytes
unfolding contains
read_headers headers_data [] = headers_data
read_headers headers_data (piece ∷ pieces) =
    let longer = headers_data ++ take buffer_size piece in
    let later = read_headers longer pieces in
    if contains blank_line headers_data
    then headers_data
    else if ltb header_limit (length longer)
    then longer
    else later

-- The status that is recorded: the first of three numbers that stands anywhere in the response.
unfoldable pub recorded_status : Bytes → ℕ
unfolding contains
recorded_status response =
    if contains (codes "404") response
    then 404
    else if contains (codes "400") response
    then 400
    else if contains (codes "405") response
    then 405
    else 200

-- A round: the first bytes, if there are any, and those that follow; the times; whether the upgrade
-- could be sent; whether the lock is had; and the reads of the flag on the way, numbered in the order of
-- the code.
pub record TaskRound : Type 0 where
  pub initial : Option Bytes
  pub pieces : List Bytes
  pub now : ℕ
  pub duration : ℕ
  pub upgrade_sent : Bool
  pub locked : Bool
  pub asked : ℕ → Bool

-- How the loop goes on: another round, the end, the connection given to the loop for HTTP/2 with the
-- bytes read, or to the WebSocket handler.
pub data TaskStep : Type 0 where
  again ended to_websocket : TaskStep
  to_http2 : Bytes → TaskStep

-- The server, the metrics, the responses sent, and how the loop goes on.
abbrev pub TaskState : Type 0
TaskState = Server × PerformanceMetrics × List Bytes × TaskStep

-- The end of the task: the socket is given up unless the WebSocket handler has it.
unfoldable pub give_up : ℕ → (Bytes → Bytes × Http2End) → Bool → TaskState → TaskState × Bytes
unfolding remove_connection
give_up socket serve locked (s, m, responses, again) = ((s, m, responses, again), [])
give_up socket serve locked (s, m, responses, to_websocket) = ((s, m, responses, to_websocket), [])
give_up socket serve locked (s, m, responses, ended) =
    ((unregister_socket socket (remove_connection locked socket s), m, responses, ended), [])
give_up socket serve locked (s, m, responses, to_http2 bytes) = (
  (unregister_socket socket (remove_connection locked socket s), m, responses, to_http2 bytes),
  (serve bytes).0,
)

module _ (env : Environment) (base64_encode sha1_hash : Bytes → Bytes) (socket : ℕ) where
  open env use {date}

  unfoldable pub task_request : Server → PerformanceMetrics → HttpRequest → TaskRound → TaskState
  unfolding update_connection_timestamp recorded_status
  task_request s m request r =
      let (s', answer) = handle_request env s request in
      elim answer [
        | threw e ↦ (s', m, [], ended)
        | returned (response, keep) ↦
            let going_on = keep && s'.keep_alive_enabled in
            let seen =
              if going_on && not (r.asked 6)
              then update_connection_timestamp (r.asked 7) r.locked r.now socket s'
              else s' in
            (
              if r.asked 8 then seen else record seen { total_requests = seen.total_requests + 1 },
              if r.asked 8 || r.asked 9
                  then m
                  else record_request r.now request.method request.path (recorded_status response)
                      r.duration m,
              if r.asked 5 then [] else response ∷ [],
              if going_on && not (r.asked 10) then again else ended,
            )
      ]

  -- `handle_websocket_upgrade`, and the removal behind it.
  unfoldable pub task_upgrade : Server → PerformanceMetrics → HttpRequest → TaskRound → TaskState
  unfolding remove_connection
  task_upgrade s m request r =
      let response = generate_websocket_response base64_encode sha1_hash request.headers in
      if r.asked 4 || (is_empty response || not r.upgrade_sent) then (s, m, [], ended) else (
        remove_connection r.locked socket (unregister_socket socket s),
        m,
        response ∷ [],
        to_websocket,
      )

  -- HTTP/1.1 from the header on.
  unfoldable pub task_text : Server → PerformanceMetrics → Bytes → TaskRound → TaskState
  unfolding task_request task_upgrade
  task_text s m text r = elim (parse new_request text) [
    | threw e ↦ (s, m, [], ended)
    | returned (request, fine) ↦
        if not fine
        then (
          s,
          if r.asked 2 || r.asked 3
              then m
              else record_request r.now (codes "INVALID") (codes "INVALID") 400 r.duration m,
          if r.asked 2 then [] else get_400_response date s ∷ [],
          ended,
        )
        else if is_websocket_path request.path
            && (is_websocket_request request.headers && not (r.asked 3))
        then task_upgrade s m request r
        else if r.asked 4
        then (s, m, [], ended)
        else task_request s m request r
  ]

  unfoldable pub task_round : Server → PerformanceMetrics → TaskRound → TaskState
  unfolding task_text read_headers is_prefix
  task_round s m r = if r.asked 0 then (s, m, [], ended) else elim r.initial [
    | none ↦ (s, m, [], ended)
    | some bytes ↦
        let first = take buffer_size bytes in
        let text = read_headers first r.pieces in
        if s.http2_enabled && (leb 24 (length first) && is_prefix connection_preface first)
        then (s, m, [], to_http2 first)
        else if is_empty text || r.asked 1
        then (s, m, [], ended)
        else task_text s m text r
  ]

  -- Behind a round, with what the later ones would give.
  unfoldable pub next_state : TaskState → TaskState → TaskState
  next_state (s, m, responses, again) (s', m', later, last) = (s', m', responses ++ later, last)
  next_state (s, m, responses, ended) later = (s, m, responses, ended)
  next_state (s, m, responses, to_websocket) later = (s, m, responses, to_websocket)
  next_state (s, m, responses, to_http2 bytes) later = (s, m, responses, to_http2 bytes)

  unfoldable pub task_rounds : Server → PerformanceMetrics → List TaskRound → TaskState
  unfolding task_round next_state
  task_rounds s m [] = (s, m, [], again)
  task_rounds s m (r ∷ rs) =
      let here = task_round s m r in next_state here (task_rounds here.0 here.1 rs)

  -- `serve` is the loop for HTTP/2 on the bytes read, and `locked` whether the lock is had at the end.
  unfoldable pub handle_client_task :
      (serve : Bytes → Bytes × Http2End)
      → (locked : Bool) → Server
      → PerformanceMetrics
      → List TaskRound
      → TaskState × Bytes
  unfolding task_rounds give_up
  handle_client_task serve locked s m rs = give_up socket serve locked (task_rounds s m rs)
