-- ===== src/Server/Clients.antt =====
-- The task of a client in src/core/server.cpp: `handle_client_task_safe` with the tests that choose
-- between TLS and plain HTTP.
pub mod Released
pub mod Numbering
mod Tests
use web_server_http.Common.{
  ℕ, Bool, true, false, List, [], Bytes, ◌&&◌, ◌==◌, Option, none, some, if◌then◌else◌,
}
use web_server_http.Metrics.{PerformanceMetrics}
use web_server_http.Server.Api.{Environment}
use web_server_http.Server.Io.{
  Round, Progress, finished, release_socket, hand_back, handle_client_task_safe,
}
use web_server_http.Server.State.{Server}
use web_server_http.Server.Tls.Connection.{SslCall, Handshake, handle_tls_connection}
use web_server_http.Server.Tls.Http.{ended_with}

-- SSL3_RT_HANDSHAKE.
unfoldable pub is_tls_handshake : Option ℕ → Bool
is_tls_handshake none = false
is_tls_handshake (some byte) = byte == 22

-- `stopping` is what the first test of the shutdown flag reads, `peeked` the first byte, if there is
-- one. The guard gives the socket up in all cases but that of an upgrade to WebSocket.
unfoldable pub serve_client :
    Environment
    → (base64_encode sha1_hash : Bytes → Bytes) → (socket : ℕ) → (stopping : Bool)
    → (peeked : Option ℕ) → Handshake
    → Server
    → PerformanceMetrics
    → List Round
    → Progress × List SslCall
unfolding is_tls_handshake hand_back release_socket handle_tls_connection handle_client_task_safe
serve_client env base64_encode sha1_hash socket true peeked h s m rounds =
    (ended_with (release_socket env base64_encode sha1_hash socket s) m [] finished, [])
serve_client env base64_encode sha1_hash socket false peeked h s m rounds =
    if s.tls_enabled && is_tls_handshake peeked
    then closed_with (handle_tls_connection env h s m rounds)
    else (handle_client_task_safe env base64_encode sha1_hash socket s m rounds, [])
  where
    closed_with : Progress × List SslCall → Progress × List SslCall
    closed_with (p, calls) = (hand_back env base64_encode sha1_hash socket p.last p, calls)
