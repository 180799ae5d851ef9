-- ===== src/Server/Clients/Tests.antt =====
-- The theorems on the task of a client at concrete inputs.
use web_server_http.Common.{false, true, [], ◌∷◌, none, some, ◌≢◌, arith}
use web_server_http.Metrics.{new_metrics}
use web_server_http.Server.Clients.{serve_client}
use web_server_http.Server.Clients.Numbering.{serve_client-Numbered}
use web_server_http.Server.Users.{Numbered}
use web_server_http.Server.Clients.Released.{Gone, serve_client-Gone}
use web_server_http.Server.Io.{finished, pending}
use web_server_http.Server.State.{Server, new_server}
use web_server_http.Server.Tests.{environment, same_text, posts_a_user, new_server-Numbered}
use web_server_http.Server.Tls.Connection.{
  Handshake, serve_route, tls_route, create_ssl_connection, route_of, perform_alpn_negotiation,
}

-- OpenSSL's handshake with the client fails.
abbrev fails : Handshake
fails = record {
  ssl_ctx = some 1;
  new_ssl = some 2;
  fd_set = true;
  accepted = false;
  selected = none;
  uses = [];
}

abbrev with_tls : Server
with_tls = record new_server {
  tls_enabled = true;
  connection_timestamps = (4, 90) ∷ (5, 98) ∷ [];
  sockets = 4 ∷ 5 ∷ [];
}

serve_client-Gone_example :
    Gone 4
      (serve_client environment same_text same_text 4 false
        (some 22)
        fails
        with_tls
        (new_metrics 0)
        (posts_a_user ∷ [])).0.server
unfolding serve_client serve_route tls_route create_ssl_connection route_of perform_alpn_negotiation
serve_client-Gone_example =
    serve_client-Gone environment same_text same_text 4 false (some 22) fails with_tls
      (new_metrics 0) (posts_a_user ∷ []) not_pending
  where
    not_pending : finished ≢ pending
    not_pending e = absurd (ground (arith, e))

serve_client-Numbered_example :
    Numbered
      (serve_client environment same_text same_text 4 false
        (some 71)
        fails
        with_tls
        (new_metrics 0)
        (posts_a_user ∷ [])).0.server
serve_client-Numbered_example =
    serve_client-Numbered environment same_text same_text 4 false (some 71) fails with_tls
      (new_metrics 0) (posts_a_user ∷ []) new_server-Numbered
