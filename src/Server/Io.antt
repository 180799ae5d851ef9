-- ===== src/Server/Io.antt =====
-- Reading a request, sending a response, and the loop over the requests of a connection, in
-- server.cpp. What the system calls and the clock return is given as a list of events.
use web_server_http.Common.{
  ℕ, ◌+◌, Bool, true, false, List, [], ◌∷◌, ◌++◌, ◌&&◌, ◌||◌, not, Option, none, some, ltb,
  if◌then◌else◌, is_empty, length, take, drop, Bytes, codes, equal, contains, returned, threw,
}
use web_server_http.HttpRequest.{HttpRequest, new_request, parse}
use web_server_http.Metrics.{PerformanceMetrics, record_request}
use web_server_http.Server.Api.{Environment}
use web_server_http.Server.Response.{get_400_response, blank_line, extract_status_code}
use web_server_http.Server.Routing.{handle_request}
use web_server_http.Server.State.{
  Server, remove_connection_safe, update_connection_timestamp_safe, unregister_socket,
}
use web_server_http.WebSocket.Handshake.{is_websocket_request, generate_websocket_response}

-- What a round of the reading loop meets.
pub data ReadEvent : Type 0 where
  deadline_passed shutdown_seen select_failed select_timeout closed try_again recv_failed :
      ReadEvent
  received : Bytes → ReadEvent

pub data ReadResult : Type 0 where
  complete : Bytes → ReadResult
  given_up : ReadResult
  reading : Bytes → ReadResult

abbrev pub buffer_size : ℕ
buffer_size = 4095

abbrev pub header_limit : ℕ
header_limit = 8192

-- The loop of `read_request_with_timeout` on the text read so far.
unfoldable pub read_request_with_timeout : Bytes → List ReadEvent → ReadResult
unfolding contains
read_request_with_timeout headers_data [] =
    if contains blank_line headers_data then complete headers_data else reading headers_data
read_request_with_timeout headers_data (e ∷ es) = elim (contains blank_line headers_data) [
  | true ↦ complete headers_data
  | false ↦ elim e [
    | received chunk ↦
        let longer = headers_data ++ take buffer_size chunk in
        elim (ltb header_limit (length longer)) [
          | true ↦ given_up
          | false ↦ read_request_with_timeout longer es
        ]
    | select_timeout ↦ read_request_with_timeout headers_data es
    | try_again ↦ read_request_with_timeout headers_data es
    | _ ↦ given_up
  ]
]

-- What a round of the sending loop meets.
pub data SendEvent : Type 0 where
  sent : ℕ → SendEvent
  send_failed shutdown_requested : SendEvent

-- How the loop ends, if it does, and what is on the wire. `send` writes no more than it is given.
pub data SendResult : Type 0 where
  all_sent aborted sending : SendResult

-- The loop, on what is left to send.
unfoldable pub send_left : Bytes → List SendEvent → SendResult × Bytes
send_left [] es = (all_sent, [])
send_left (c ∷ left) [] = (sending, [])
send_left (c ∷ left) (sent n ∷ es) =
    let (result, wire) = send_left (drop n (c ∷ left)) es in (result, take n (c ∷ left) ++ wire)
send_left (c ∷ left) (_ ∷ es) = (aborted, [])

-- `stopping` is what the test before the loop reads.
unfoldable pub send_response_safe : Bool → Bytes → List SendEvent → SendResult × Bytes
send_response_safe stopping response es = if stopping then (aborted, []) else send_left response es

unfoldable pub is_websocket_path : Bytes → Bool
unfolding equal
is_websocket_path path = equal path (codes "/ws") || equal path (codes "/websocket")

-- A round of the loop over the requests: what was read, `none` where `read_request_with_timeout`
-- failed; the time; the milliseconds that handling took; whether the upgrade response could be sent; and
-- whether a signal has set `g_shutdown_requested` when the request is recorded.
pub record Round : Type 0 where
  pub request_text : Option Bytes
  pub now : ℕ
  pub duration : ℕ
  pub upgrade_sent : Bool
  pub g_shutdown_requested : Bool

-- How a connection ends: handed to the WebSocket handler, closed, or open at the end of the rounds.
pub data End : Type 0 where
  upgraded finished pending : End

-- The connection so far: the server, its metrics and the responses.
pub record Progress : Type 0 where
  pub server : Server
  pub metrics : PerformanceMetrics
  pub responses : List Bytes
  pub last : End

-- `record_request_metric`, where there are metrics.
unfoldable pub record_unless_signalled :
    Bool → ℕ → Bytes → Bytes → ℕ → ℕ → PerformanceMetrics → PerformanceMetrics
record_unless_signalled g_shutdown_requested now method path status_code response_time_ms m =
    if g_shutdown_requested
    then m
    else record_request now method path status_code response_time_ms m

-- No shutdown is requested of the ShutdownCoordinator meanwhile.
module _ (env : Environment) (base64_encode sha1_hash : Bytes → Bytes) (socket : ℕ) where
  open env use {date}

  abbrev pub stop_with : Server → PerformanceMetrics → List Bytes → End → Progress
  stop_with s m responses last = record {
    server = s;
    metrics = m;
    responses = responses;
    last = last;
  }

  -- The branch for an upgrade to WebSocket.
  unfoldable pub websocket_upgrade : Server → PerformanceMetrics → HttpRequest → Bool → Progress
  websocket_upgrade s m request upgrade_sent =
      let response = generate_websocket_response base64_encode sha1_hash request.headers in
      let removed = remove_connection_safe socket s in
      if is_empty response
      then stop_with removed m [] finished
      else if upgrade_sent
      then stop_with (unregister_socket socket removed) m (response ∷ []) upgraded
      else stop_with removed m [] finished

  -- The branch for any other request: the response, and whether the loop goes on.
  unfoldable pub http_request : Server → PerformanceMetrics → HttpRequest → Round → Progress × Bool
  http_request s m request round =
      let (s', answer) = handle_request env s request in
      elim answer [
        | threw e ↦ (stop_with s' m [] finished, false)
        | returned (response, keep) ↦
            let going_on = keep && s'.keep_alive_enabled in
            let seen =
              if going_on then update_connection_timestamp_safe round.now socket s' else s' in
            (
              stop_with (record seen { total_requests = seen.total_requests + 1 })
                  (record_unless_signalled round.g_shutdown_requested round.now request.method
                    request.path (extract_status_code response) round.duration m)
                  (response ∷ []) finished,
              going_on,
            )
      ]

  -- One round of the loop, and whether there is another.
  unfoldable pub connection_round : Server → PerformanceMetrics → Round → Progress × Bool
  connection_round s m round = elim round.request_text [
    | none ↦ (stop_with s m [] finished, false)
    | some text ↦ elim (parse new_request text) [
      | threw e ↦ (stop_with s m [] finished, false)
      | returned (request, fine) ↦
          if not fine
          then (stop_with s m (get_400_response date s ∷ []) finished, false)
          else if is_websocket_path request.path && is_websocket_request request.headers
          then (websocket_upgrade s m request round.upgrade_sent, false)
          else http_request s m request round
    ]
  ]

  -- `handle_http_connection`.
  unfoldable pub handle_http_connection : Server → PerformanceMetrics → List Round → Progress
  handle_http_connection s m [] = stop_with s m [] pending
  handle_http_connection s m (round ∷ rounds) =
      let (p, again) = connection_round s m round in
      let later = handle_http_connection p.server p.metrics rounds in
      if again then record later { responses = p.responses ++ later.responses } else p

  -- `handle_client_task_safe` without TLS: the guard gives the socket up unless it was handed on.
  unfoldable pub release_socket : Server → Server
  release_socket s = unregister_socket socket (remove_connection_safe socket s)

  unfoldable pub hand_back : End → Progress → Progress
  hand_back upgraded p = p
  hand_back pending p = p
  hand_back finished p = record p { server = release_socket p.server }

  unfoldable pub handle_client_task_safe : Server → PerformanceMetrics → List Round → Progress
  handle_client_task_safe s m rounds =
      let p = handle_http_connection s m rounds in hand_back p.last p
