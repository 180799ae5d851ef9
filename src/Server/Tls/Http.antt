-- ===== src/Server/Tls/Http.antt =====
-- `handle_tls_http_connection` of src/core/server.cpp. A round is as for a connection without TLS.
use web_server_http.Common.{
  ◌+◌, Bool, false, List, [], ◌∷◌, ◌++◌, ◌&&◌, not, none, some, if◌then◌else◌, Bytes, returned,
  threw,
}
use web_server_http.HttpRequest.{HttpRequest, new_request, parse}
use web_server_http.Metrics.{PerformanceMetrics}
use web_server_http.Server.Api.{Environment}
use web_server_http.Server.Io.{
  Round, Progress, End, finished, pending, record_unless_signalled, is_websocket_path,
}
use web_server_http.Server.Response.{get_400_response, extract_status_code}
use web_server_http.Server.Routing.{handle_request}
use web_server_http.Server.State.{Server}
use web_server_http.WebSocket.Handshake.{is_websocket_request}

abbrev pub ended_with : Server → PerformanceMetrics → List Bytes → End → Progress
ended_with s m responses last = record {
  server = s;
  metrics = m;
  responses = responses;
  last = last;
}

module _ (env : Environment) where
  open env use {date}

  unfoldable pub tls_http_request :
      Server → PerformanceMetrics → HttpRequest → Round → Progress × Bool
  tls_http_request s m request round =
      let (s', answer) = handle_request env s request in
      elim answer [
        | threw e ↦ (ended_with s' m [] finished, false)
        | returned (response, keep) ↦ (
          ended_with (record s' { total_requests = s'.total_requests + 1 })
              (record_unless_signalled round.g_shutdown_requested round.now request.method
                request.path (extract_status_code response) round.duration m)
              (response ∷ []) finished,
          keep && s'.keep_alive_enabled,
        )
      ]

  unfoldable pub tls_round : Server → PerformanceMetrics → Round → Progress × Bool
  tls_round s m round = elim round.request_text [
    | none ↦ (ended_with s m [] finished, false)
    | some text ↦ elim (parse new_request text) [
      | threw e ↦ (ended_with s m [] finished, false)
      | returned (request, fine) ↦
          if not fine
          then (ended_with s m (get_400_response date s ∷ []) finished, false)
          else if is_websocket_path request.path && is_websocket_request request.headers
          then (ended_with s m (get_400_response date s ∷ []) finished, false)
          else tls_http_request s m request round
    ]
  ]

  unfoldable pub handle_tls_http_connection : Server → PerformanceMetrics → List Round → Progress
  handle_tls_http_connection s m [] = ended_with s m [] pending
  handle_tls_http_connection s m (round ∷ rounds) =
      let (p, again) = tls_round s m round in
      let later = handle_tls_http_connection p.server p.metrics rounds in
      if again then record later { responses = p.responses ++ later.responses } else p
