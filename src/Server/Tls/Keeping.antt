-- ===== src/Server/Tls/Keeping.antt =====
-- What holds of the server holds of it behind `handle_tls_http_connection` of src/core/server.cpp, if
-- `create_user` and the count of the requests keep it.
use web_server_http.Common.{
  ℕ, true, false, List, [], ◌∷◌, ◌≡◌, ◌&&◌, Option-cases, Bool-cases, inl, inr, Try-cases, Bytes,
  is_empty,
}
use web_server_http.HttpRequest.{HttpRequest, new_request, parse}
use web_server_http.Metrics.{PerformanceMetrics}
use web_server_http.Server.Api.{Environment, create_user}
use web_server_http.Server.Handling.{handle_request_keeps}
use web_server_http.Server.Io.{Round, is_websocket_path}
use web_server_http.Server.Routing.{handle_request}
use web_server_http.Server.State.{Server}
use web_server_http.Server.Tls.Connection.{Route, refused, to_http2, to_http, serve_route}
use web_server_http.Server.Tls.Http.{tls_http_request, tls_round, handle_tls_http_connection}
use web_server_http.WebSocket.Handshake.{is_websocket_request}

module _ (P : Server → Type 0)
    (created : (s : Server) (name email : Bytes)
      → is_empty name ≡ false
      → is_empty email ≡ false
      → P s
      → P (create_user name email s).0)
    (counted : (s : Server) (n : ℕ) → P s → P (record s { total_requests = n }))
    (env : Environment) where
  tls_http_request_keeps :
      (s : Server) (m : PerformanceMetrics) (request : HttpRequest) (round : Round)
      → P s
      → P (tls_http_request env s m request round).0.server
  unfolding tls_http_request
  tls_http_request_keeps s m request round h =
      let after = handle_request env s request in
      let kept = handle_request_keeps P created env s request h in
      elim (Try-cases after.1) [
        | inr (e, q) ↦ rw (q, tls_http_request) kept
        | inl ((response, keep), q) ↦ rw (q, tls_http_request) (counted after.0 _ kept)
      ]

  pub tls_round_keeps :
      (s : Server) (m : PerformanceMetrics) (round : Round)
      → P s
      → P (tls_round env s m round).0.server
  unfolding tls_round
  tls_round_keeps s m round h = elim (Option-cases round.request_text) [
    | inl q ↦ rw (q, tls_round) h
    | inr (text, q) ↦ elim (Try-cases (parse new_request text)) [
      | inr (e, r) ↦ rw (q, r, tls_round) h
      | inl ((request, false), r) ↦ rw (q, r, tls_round) h
      | inl ((request, true), r) ↦
          elim (Bool-cases
            (is_websocket_path request.path && is_websocket_request request.headers)) [
              | inl w ↦ rw (q, r, w, tls_round) h
              | inr w ↦ rw (q, r, w, tls_round) (tls_http_request_keeps s m request round h)
            ]
    ]
  ]

  handle_tls_http_connection_keeps :
      (s : Server) (m : PerformanceMetrics) (rounds : List Round)
      → P s
      → P (handle_tls_http_connection env s m rounds).server
  unfolding handle_tls_http_connection
  handle_tls_http_connection_keeps s m [] h = h
  handle_tls_http_connection_keeps s m (round ∷ rounds) h =
      let here = tls_round env s m round in
      let kept = tls_round_keeps s m round h in
      elim (Bool-cases here.1) [
        | inl b ↦
            rw (b, handle_tls_http_connection)
              (handle_tls_http_connection_keeps here.0.server here.0.metrics rounds kept)
        | inr b ↦ rw (b, handle_tls_http_connection) kept
      ]

  pub serve_route_keeps :
      (r : Route) (s : Server) (m : PerformanceMetrics) (rounds : List Round)
      → P s
      → P (serve_route env r s m rounds).server
  unfolding serve_route
  serve_route_keeps refused s m rounds h = h
  serve_route_keeps to_http2 s m rounds h = h
  serve_route_keeps to_http s m rounds h = handle_tls_http_connection_keeps s m rounds h
