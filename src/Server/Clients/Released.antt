-- ===== src/Server/Clients/Released.antt =====
-- The tables of the server behind the task of a client in src/core/server.cpp.
use web_server_http.Common.{
  ℕ, Bool, true, false, List, [], ◌∷◌, ◌≡◌, ◌≢◌, refl, ◌&&◌, Option, none, Option-cases, Bool-cases,
  inl, inr, is_empty, Bytes, Try-cases, ==_self, arith,
}
use web_server_http.Common.Dict.{lookup, lookup-erase_self, nat_key}
use web_server_http.HttpRequest.{HttpRequest, new_request, parse}
use web_server_http.Metrics.{PerformanceMetrics}
use web_server_http.Server.Api.{Environment}
use web_server_http.Server.Clients.{serve_client, is_tls_handshake}
use web_server_http.Server.Io.{
  Round, Progress, End, upgraded, finished, pending, is_websocket_path, websocket_upgrade,
  http_request, connection_round, handle_http_connection, release_socket, hand_back,
  handle_client_task_safe,
}
use web_server_http.Server.Routing.{handle_request}
use web_server_http.Server.State.{Server, unregister_socket, remove_connection_safe}
use web_server_http.Server.Sweep.{listed, listed-remove_socket}
use web_server_http.Server.Tls.Connection.{
  tls_route, create_ssl_connection, serve_route, Route, refused, to_http2, to_http, Handshake,
  handle_tls_connection,
}
use web_server_http.Server.Tls.Http.{tls_http_request, tls_round, handle_tls_http_connection}
use web_server_http.WebSocket.Handshake.{is_websocket_request, generate_websocket_response}

-- The server neither lists the socket nor keeps a time for it.
abbrev pub Gone : ℕ → Server → Type 0
Gone socket s = (listed socket s.sockets ≡ false) × (lookup socket s.connection_timestamps ≡ none)

pub removed-Gone :
    (socket : ℕ) (s : Server)
    → Gone socket (unregister_socket socket (remove_connection_safe socket s))
unfolding unregister_socket remove_connection_safe
removed-Gone socket s = (
  ground (arith, listed-remove_socket socket socket s.sockets, ==_self socket),
  lookup-erase_self socket s.connection_timestamps,
)

-- If the connection is handed on, the socket is gone.
abbrev HandedOn : ℕ → Progress → Type 0
HandedOn socket p = p.last ≡ upgraded → Gone socket p.server

finished-ne-upgraded : (last : End) → last ≡ finished → last ≢ upgraded
finished-ne-upgraded last e f = absurd (ground (arith, e, f))

module _ (env : Environment) (base64_encode sha1_hash : Bytes → Bytes) (socket : ℕ) where
  websocket_upgrade-HandedOn :
      (s : Server) (m : PerformanceMetrics) (request : HttpRequest) (sent : Bool)
      → HandedOn socket (websocket_upgrade env base64_encode sha1_hash socket s m request sent)
  unfolding websocket_upgrade
  websocket_upgrade-HandedOn s m request sent =
      elim (Bool-cases
        (is_empty (generate_websocket_response base64_encode sha1_hash request.headers))) [
          | inl e ↦ rw (e, websocket_upgrade) (λ q. absurd (ground (arith, q)))
          | inr e ↦ elim (Bool-cases sent) [
            | inl b ↦ rw (e, b, websocket_upgrade) (λ q. removed-Gone socket s)
            | inr b ↦ rw (e, b, websocket_upgrade) (λ q. absurd (ground (arith, q)))
          ]
        ]

  http_request-finished :
      (s : Server) (m : PerformanceMetrics) (request : HttpRequest) (round : Round)
      → (http_request env base64_encode sha1_hash socket s m request round).0.last ≡ finished
  unfolding http_request
  http_request-finished s m request round = elim (Try-cases (handle_request env s request).1) [
    | inr (e, q) ↦ rw (q, http_request) refl
    | inl (answer, q) ↦ rw (q, http_request) refl
  ]

  connection_round-HandedOn :
      (s : Server) (m : PerformanceMetrics) (round : Round)
      → HandedOn socket (connection_round env base64_encode sha1_hash socket s m round).0
  unfolding connection_round
  connection_round-HandedOn s m round = elim (Option-cases round.request_text) [
    | inl e ↦ rw (e, connection_round) (λ f. absurd (finished-ne-upgraded finished refl f))
    | inr (text, e) ↦ elim (Try-cases (parse new_request text)) [
      | inr (x, q) ↦
          rw (e, q, connection_round) (λ f. absurd (finished-ne-upgraded finished refl f))
      | inl ((request, false), q) ↦
          rw (e, q, connection_round) (λ f. absurd (finished-ne-upgraded finished refl f))
      | inl ((request, true), q) ↦
          elim (Bool-cases
            (is_websocket_path request.path && is_websocket_request request.headers)) [
              | inl w ↦
                  rw (e, q, w, connection_round)
                    (websocket_upgrade-HandedOn s m request round.upgrade_sent)
              | inr w ↦
                  rw (e, q, w, connection_round)
                    (λ f.
                      absurd (finished-ne-upgraded _ (http_request-finished s m request round) f))
            ]
    ]
  ]

  handle_http_connection-HandedOn :
      (s : Server) (m : PerformanceMetrics) (rounds : List Round)
      → HandedOn socket (handle_http_connection env base64_encode sha1_hash socket s m rounds)
  unfolding handle_http_connection
  handle_http_connection-HandedOn s m [] = λ q. absurd (ground (arith, q))
  handle_http_connection-HandedOn s m (round ∷ rounds) =
      let here = connection_round env base64_encode sha1_hash socket s m round in
      elim (Bool-cases here.1) [
        | inl b ↦
            rw (b, handle_http_connection)
              (handle_http_connection-HandedOn here.0.server here.0.metrics rounds)
        | inr b ↦ rw (b, handle_http_connection) (connection_round-HandedOn s m round)
      ]

  hand_back-Gone :
      (last : End) (p : Progress)
      → HandedOn socket p
      → p.last ≡ last
      → (hand_back env base64_encode sha1_hash socket last p).last ≢ pending
      → Gone socket (hand_back env base64_encode sha1_hash socket last p).server
  unfolding hand_back release_socket
  hand_back-Gone upgraded p h e n = h e
  hand_back-Gone pending p h e n = absurd (n e)
  hand_back-Gone finished p h e n = removed-Gone socket p.server

  tls_http_request-finished :
      (s : Server) (m : PerformanceMetrics) (request : HttpRequest) (round : Round)
      → (tls_http_request env s m request round).0.last ≡ finished
  unfolding tls_http_request
  tls_http_request-finished s m request round = elim (Try-cases (handle_request env s request).1) [
    | inr (e, q) ↦ rw (q, tls_http_request) refl
    | inl (answer, q) ↦ rw (q, tls_http_request) refl
  ]

  tls_round-finished :
      (s : Server) (m : PerformanceMetrics) (round : Round)
      → (tls_round env s m round).0.last ≡ finished
  unfolding tls_round
  tls_round-finished s m round = elim (Option-cases round.request_text) [
    | inl q ↦ rw (q, tls_round) refl
    | inr (text, q) ↦ elim (Try-cases (parse new_request text)) [
      | inr (e, r) ↦ rw (q, r, tls_round) refl
      | inl ((request, false), r) ↦ rw (q, r, tls_round) refl
      | inl ((request, true), r) ↦
          elim (Bool-cases
            (is_websocket_path request.path && is_websocket_request request.headers)) [
              | inl w ↦ rw (q, r, w, tls_round) refl
              | inr w ↦ rw (q, r, w, tls_round) (tls_http_request-finished s m request round)
            ]
    ]
  ]

  handle_tls_http_connection-ne-upgraded :
      (s : Server) (m : PerformanceMetrics) (rounds : List Round)
      → (handle_tls_http_connection env s m rounds).last ≢ upgraded
  unfolding handle_tls_http_connection
  handle_tls_http_connection-ne-upgraded s m [] e = absurd (ground (arith, e))
  handle_tls_http_connection-ne-upgraded s m (round ∷ rounds) e =
      let here = tls_round env s m round in
      elim (Bool-cases here.1) [
        | inl b ↦
            handle_tls_http_connection-ne-upgraded here.0.server here.0.metrics rounds
              (rw (b, handle_tls_http_connection) at e)
        | inr b ↦
            finished-ne-upgraded here.0.last (tls_round-finished s m round)
              (rw (b, handle_tls_http_connection) at e)
      ]

  serve_route-ne-upgraded :
      (r : Route) (s : Server) (m : PerformanceMetrics) (rounds : List Round)
      → (serve_route env r s m rounds).last ≢ upgraded
  unfolding serve_route
  serve_route-ne-upgraded refused s m rounds e = absurd (ground (arith, e))
  serve_route-ne-upgraded to_http2 s m rounds e = absurd (ground (arith, e))
  serve_route-ne-upgraded to_http s m rounds e = handle_tls_http_connection-ne-upgraded s m rounds e

  -- However the task of a client ends, with or without TLS, by a shutdown, an error, an exception or an
  -- upgrade to WebSocket: unless it is still waiting for the client, the server does not list its socket
  -- any more and keeps no time for it.
  pub serve_client-Gone :
      (stopping : Bool) (peeked : Option ℕ) (h : Handshake) (s : Server) (m : PerformanceMetrics)
      (rounds : List Round)
      → let p = (serve_client env base64_encode sha1_hash socket stopping peeked h s m rounds).0 in
        p.last ≢ pending → Gone socket p.server
  unfolding serve_client handle_client_task_safe release_socket
  serve_client-Gone true peeked h s m rounds n = removed-Gone socket s
  serve_client-Gone false peeked h s m rounds n =
      elim (Bool-cases (s.tls_enabled && is_tls_handshake peeked)) [
        | inl q ↦ rw (q) (
            hand_back-Gone (handle_tls_connection env h s m rounds).0.last
              (handle_tls_connection env h s m rounds).0
              (λ f. absurd (
                serve_route-ne-upgraded
                  (tls_route h (create_ssl_connection h.ssl_ctx h.new_ssl h.fd_set).0) s m rounds
                  f))
              refl (rw (q) at n))
        | inr q ↦ rw (q) (
            hand_back-Gone
              (handle_http_connection env base64_encode sha1_hash socket s m rounds).last
              (handle_http_connection env base64_encode sha1_hash socket s m rounds)
              (handle_http_connection-HandedOn s m rounds) refl (rw (q) at n))
      ]
