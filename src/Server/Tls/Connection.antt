-- ===== src/Server/Tls/Connection.antt =====
-- `create_ssl_connection`, `perform_alpn_negotiation` and `handle_tls_connection` of
-- src/core/server.cpp.
use web_server_http.Common.{
  ℕ, Bool, true, false, List, [], ◌∷◌, ◌++◌, Option, none, some, if◌then◌else◌, is_empty, Bytes,
  codes, equal, map,
}
use web_server_http.Metrics.{PerformanceMetrics}
use web_server_http.Server.Api.{Environment}
use web_server_http.Server.Io.{Round, Progress, finished}
use web_server_http.Server.State.{Server}
use web_server_http.Server.Tls.Http.{ended_with, handle_tls_http_connection}

-- The functions that the serving loops call on an SSL object.
pub data SslUse : Type 0 where
  ssl_read ssl_write ssl_get_error ssl_get_fd : SslUse

-- Calls on an SSL object.
pub data SslCall : Type 0 where
  ssl_new ssl_set_fd ssl_accept ssl_get0_alpn_selected ssl_shutdown ssl_free : ℕ → SslCall
  ssl_used : SslUse → ℕ → SslCall

-- `SSL_new` gives an object or null, and `SSL_set_fd` succeeds or not.
unfoldable pub create_ssl_connection : Option ℕ → Option ℕ → Bool → Option ℕ × List SslCall
create_ssl_connection none new_ssl fd_set = (none, [])
create_ssl_connection (some ctx) none fd_set = (none, [])
create_ssl_connection (some ctx) (some ssl) fd_set =
    if fd_set
    then (some ssl, ssl_new ssl ∷ ssl_set_fd ssl ∷ [])
    else (none, ssl_new ssl ∷ ssl_set_fd ssl ∷ ssl_free ssl ∷ [])

-- `accepted` is whether `SSL_accept` succeeds, `selected` what `SSL_get0_alpn_selected` gives.
unfoldable pub perform_alpn_negotiation : Bool → Option Bytes → Option Bytes
perform_alpn_negotiation false selected = none
perform_alpn_negotiation true none = some (codes "http/1.1")
perform_alpn_negotiation true (some p) = some (if is_empty p then codes "http/1.1" else p)

-- The calls of `perform_alpn_negotiation`, where there is an object.
unfoldable pub negotiation_calls : Option ℕ → Bool → List SslCall
negotiation_calls none accepted = []
negotiation_calls (some ssl) false = ssl_accept ssl ∷ []
negotiation_calls (some ssl) true = ssl_accept ssl ∷ ssl_get0_alpn_selected ssl ∷ []

-- What the calls of a connection return, and what the serving loop calls on the object it is given.
pub record Handshake : Type 0 where
  pub ssl_ctx : Option ℕ
  pub new_ssl : Option ℕ
  pub fd_set : Bool
  pub accepted : Bool
  pub selected : Option Bytes
  pub uses : List SslUse

-- Which loop serves the connection, if any.
pub data Route : Type 0 where
  refused to_http2 to_http : Route

unfoldable pub route_of : Option Bytes → Route
route_of none = refused
route_of (some p) = if equal p (codes "h2") then to_http2 else to_http

unfoldable pub tls_route : Handshake → Option ℕ → Route
tls_route h none = refused
tls_route h (some ssl) = route_of (perform_alpn_negotiation h.accepted h.selected)

unfoldable pub serving_calls : Option ℕ → Route → List SslUse → List SslCall
serving_calls none r uses = []
serving_calls (some ssl) refused uses = []
serving_calls (some ssl) to_http2 uses = map (λ u. ssl_used u ssl) uses
serving_calls (some ssl) to_http uses = map (λ u. ssl_used u ssl) uses

unfoldable pub closing_calls : Option ℕ → Route → List SslCall
closing_calls none r = []
closing_calls (some ssl) refused = ssl_free ssl ∷ []
closing_calls (some ssl) to_http2 = ssl_shutdown ssl ∷ ssl_free ssl ∷ []
closing_calls (some ssl) to_http = ssl_shutdown ssl ∷ ssl_free ssl ∷ []

-- The loop for HTTP/2 touches no member of the server and no metrics.
unfoldable pub serve_route :
    Environment → Route → Server → PerformanceMetrics → List Round → Progress
serve_route env refused s m rounds = ended_with s m [] finished
serve_route env to_http2 s m rounds = ended_with s m [] finished
serve_route env to_http s m rounds = handle_tls_http_connection env s m rounds

unfoldable pub handle_tls_connection :
    Environment → Handshake → Server → PerformanceMetrics → List Round → Progress × List SslCall
handle_tls_connection env h s m rounds =
    let (ssl, opening) = create_ssl_connection h.ssl_ctx h.new_ssl h.fd_set in
    let route = tls_route h ssl in
    (
      serve_route env route s m rounds,
      opening
          ++ (negotiation_calls ssl h.accepted
              ++ (serving_calls ssl route h.uses ++ closing_calls ssl route)),
    )
