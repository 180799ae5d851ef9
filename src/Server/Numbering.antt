-- ===== src/Server/Numbering.antt =====
-- The users through whole connections of src/core/server.cpp.
use web_server_http.Common.{
  ℕ, Bool, true, false, List, [], ◌∷◌, Bytes, Option-cases, Try-cases, Bool-cases, inl, inr,
  if◌then◌else◌, is_empty, ◌&&◌,
}
use web_server_http.Common.Dict.{lookup, nat_key}
use web_server_http.HttpRequest.{HttpRequest, new_request, parse}
use web_server_http.Metrics.{PerformanceMetrics}
use web_server_http.Server.Api.{Environment}
use web_server_http.Server.Io.{
  Round, Progress, End, upgraded, finished, pending, websocket_upgrade, http_request,
  connection_round, handle_http_connection, release_socket, hand_back, handle_client_task_safe,
  is_websocket_path,
}
use web_server_http.Server.Routing.{handle_request}
use web_server_http.Server.State.{
  Server, update_connection_timestamp_safe, remove_connection_safe, unregister_socket,
}
use web_server_http.Server.Users.{Numbered, handle_request-Numbered}
use web_server_http.WebSocket.Handshake.{is_websocket_request, generate_websocket_response}

-- The table of connections has nothing to do with the users.
timestamp-Numbered :
    (b : Bool) (now socket : ℕ) (s : Server)
    → Numbered s
    → Numbered (if b then update_connection_timestamp_safe now socket s else s)
unfolding update_connection_timestamp_safe
timestamp-Numbered false now socket s n = n
timestamp-Numbered true now socket s n =
    elim (Option-cases (lookup socket s.connection_timestamps)) [
      | inl e ↦ rw (e, update_connection_timestamp_safe) n
      | inr (t, e) ↦ rw (e, update_connection_timestamp_safe) n
    ]

module _ (env : Environment) (base64_encode sha1_hash : Bytes → Bytes) (socket : ℕ) where
  http_request-Numbered :
      (s : Server) (m : PerformanceMetrics) (request : HttpRequest) (round : Round)
      → Numbered s
      → Numbered (http_request env base64_encode sha1_hash socket s m request round).0.server
  unfolding http_request
  http_request-Numbered s m request round n =
      let after = handle_request env s request in
      let kept = handle_request-Numbered env s request n in
      elim (Try-cases after.1) [
        | inr (e, q) ↦ rw (q, http_request) kept
        | inl ((response, keep), q) ↦
            rw (q, http_request)
              (timestamp-Numbered (keep && after.0.keep_alive_enabled) round.now socket after.0
                kept)
      ]

  websocket_upgrade-Numbered :
      (s : Server) (m : PerformanceMetrics) (request : HttpRequest) (sent : Bool)
      → Numbered s
      → Numbered (websocket_upgrade env base64_encode sha1_hash socket s m request sent).server
  unfolding websocket_upgrade remove_connection_safe unregister_socket
  websocket_upgrade-Numbered s m request sent n =
      elim (Bool-cases
        (is_empty (generate_websocket_response base64_encode sha1_hash request.headers))) [
          | inl e ↦ rw (e, websocket_upgrade) n
          | inr e ↦ elim (Bool-cases sent) [
            | inl b ↦ rw (e, b, websocket_upgrade) n
            | inr b ↦ rw (e, b, websocket_upgrade) n
          ]
        ]

  connection_round-Numbered :
      (s : Server) (m : PerformanceMetrics) (round : Round)
      → Numbered s
      → Numbered (connection_round env base64_encode sha1_hash socket s m round).0.server
  unfolding connection_round
  connection_round-Numbered s m round n = elim (Option-cases round.request_text) [
    | inl e ↦ rw (e, connection_round) n
    | inr (text, e) ↦ elim (Try-cases (parse new_request text)) [
      | inr (x, q) ↦ rw (e, q, connection_round) n
      | inl ((request, fine), q) ↦ elim (Bool-cases fine) [
        | inr b ↦ rw (e, q, b, connection_round) n
        | inl b ↦
            elim (Bool-cases
              (is_websocket_path request.path && is_websocket_request request.headers)) [
                | inl w ↦
                    rw (e, q, b, w, connection_round)
                      (websocket_upgrade-Numbered s m request round.upgrade_sent n)
                | inr w ↦
                    rw (e, q, b, w, connection_round) (http_request-Numbered s m request round n)
              ]
      ]
    ]
  ]

  handle_http_connection-Numbered :
      (s : Server) (m : PerformanceMetrics) (rounds : List Round)
      → Numbered s
      → Numbered (handle_http_connection env base64_encode sha1_hash socket s m rounds).server
  unfolding handle_http_connection
  handle_http_connection-Numbered s m [] n = n
  handle_http_connection-Numbered s m (round ∷ rounds) n =
      let here = connection_round env base64_encode sha1_hash socket s m round in
      let kept = connection_round-Numbered s m round n in
      elim (Bool-cases here.1) [
        | inl b ↦
            rw (b, handle_http_connection)
              (handle_http_connection-Numbered here.0.server here.0.metrics rounds kept)
        | inr b ↦ rw (b, handle_http_connection) kept
      ]

  pub hand_back-Numbered :
      (last : End) (p : Progress)
      → Numbered p.server
      → Numbered (hand_back env base64_encode sha1_hash socket last p).server
  unfolding hand_back release_socket remove_connection_safe unregister_socket
  hand_back-Numbered upgraded p n = n
  hand_back-Numbered pending p n = n
  hand_back-Numbered finished p n = n

  -- A connection leaves the users numbered, whatever requests, errors and upgrades it has: if the ids
  -- of the users were 1, 2 and so on, each with a name and an email, and the next id was the first
  -- free one, so it is after `handle_client_task_safe`.
  pub handle_client_task-Numbered :
      (s : Server) (m : PerformanceMetrics) (rounds : List Round)
      → Numbered s
      → Numbered (handle_client_task_safe env base64_encode sha1_hash socket s m rounds).server
  unfolding handle_client_task_safe
  handle_client_task-Numbered s m rounds n =
      hand_back-Numbered (handle_http_connection env base64_encode sha1_hash socket s m rounds).last
        _ (handle_http_connection-Numbered s m rounds n)
