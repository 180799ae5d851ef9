-- ===== src/Server/Clients/Numbering.antt =====
-- The users of the server behind the task of a client in src/core/server.cpp.
use web_server_http.Common.{ℕ, Bool, true, false, List, ◌&&◌, Option, Bytes, Bool-cases, inl, inr}
use web_server_http.Metrics.{PerformanceMetrics}
use web_server_http.Server.Api.{Environment}
use web_server_http.Server.Clients.{serve_client, is_tls_handshake}
use web_server_http.Server.Io.{Round, release_socket}
use web_server_http.Server.Numbering.{hand_back-Numbered, handle_client_task-Numbered}
use web_server_http.Server.State.{Server, remove_connection_safe, unregister_socket}
use web_server_http.Server.Tls.Connection.{
  Handshake, handle_tls_connection, tls_route, create_ssl_connection,
}
use web_server_http.Server.Tls.Keeping.{serve_route_keeps}
use web_server_http.Server.Users.{Numbered, create_user-Numbered}

-- The task of a client leaves the users numbered, with TLS or without, whatever requests, malformed
-- texts, exceptions and upgrades there are: if the ids of the users were 1, 2 and so on, as 32-bit
-- ints that wrap around, each with a name and an email, and the next id was the next number, so it is
-- afterwards.
pub serve_client-Numbered :
    (env : Environment) (base64_encode sha1_hash : Bytes → Bytes) (socket : ℕ) (stopping : Bool)
    (peeked : Option ℕ) (h : Handshake) (s : Server) (m : PerformanceMetrics) (rounds : List Round)
    → Numbered s
    → Numbered
        (serve_client env base64_encode sha1_hash socket stopping peeked h s m rounds).0.server
unfolding serve_client release_socket remove_connection_safe unregister_socket handle_tls_connection
serve_client-Numbered env base64_encode sha1_hash socket true peeked h s m rounds n = n
serve_client-Numbered env base64_encode sha1_hash socket false peeked h s m rounds n =
    elim (Bool-cases (s.tls_enabled && is_tls_handshake peeked)) [
      | inl q ↦
          let p = (handle_tls_connection env h s m rounds).0 in
          rw (q) (
            hand_back-Numbered env base64_encode sha1_hash socket p.last p (
              serve_route_keeps Numbered create_user-Numbered (λ s' k n'. n') env
                (tls_route h (create_ssl_connection h.ssl_ctx h.new_ssl h.fd_set).0) s m rounds n))
      | inr q ↦ rw (q) (handle_client_task-Numbered env base64_encode sha1_hash socket s m rounds n)
    ]
