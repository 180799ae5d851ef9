-- ===== src/Server/Tls/SamePages.antt =====
-- `handle_tls_http_connection` of src/core/server.cpp against `handle_http_connection`.
use web_server_http.Common.{
  ℕ, Bool, true, false, List, [], ◌∷◌, ◌≡◌, refl, ◌&&◌, not, Bytes, is_empty, arith, none, some,
  Option-cases, Bool-cases, inl, inr, Try-cases, returned, threw,
}
use web_server_http.Common.Dict.{lookup, nat_key}
use web_server_http.HttpRequest.{HttpRequest, new_request, parse}
use web_server_http.Metrics.{PerformanceMetrics}
use web_server_http.Server.Api.{Environment, create_user}
use web_server_http.Server.Handling.{handle_request_keeps}
use web_server_http.Server.Io.{
  Round, is_websocket_path, http_request, connection_round, handle_http_connection,
}
use web_server_http.Server.Routing.{handle_request}
use web_server_http.Server.State.{Server, update_connection_timestamp_safe}
use web_server_http.Server.Tls.Http.{tls_http_request, tls_round, handle_tls_http_connection}
use web_server_http.Server.Tls.Keeping.{tls_round_keeps}
use web_server_http.WebSocket.Handshake.{is_websocket_request}

-- The server keeps no time for the connection.
abbrev pub Untimed : ℕ → Server → Type 0
Untimed socket s = lookup socket s.connection_timestamps ≡ none

-- A round with no upgrade to WebSocket.
unfoldable pub plain : Round → Bool
plain round = elim round.request_text [
  | none ↦ true
  | some text ↦ elim (parse new_request text) [
    | threw e ↦ true
    | returned (request, fine) ↦
        not (is_websocket_path request.path && is_websocket_request request.headers)
  ]
]

unfoldable pub all_plain : List Round → Bool
all_plain [] = true
all_plain (r ∷ rs) = plain r && all_plain rs

module _ (env : Environment) (base64_encode sha1_hash : Bytes → Bytes) (socket : ℕ) where
  create_user-Untimed :
      (s : Server) (name email : Bytes)
      → is_empty name ≡ false
      → is_empty email ≡ false
      → Untimed socket s
      → Untimed socket (create_user name email s).0
  unfolding create_user
  create_user-Untimed s name email a b u = u

  handle_request-Untimed :
      (s : Server) (request : HttpRequest)
      → Untimed socket s
      → Untimed socket (handle_request env s request).0
  handle_request-Untimed = handle_request_keeps (Untimed socket) create_user-Untimed env

  same_update :
      (now : ℕ) (s : Server) → Untimed socket s → update_connection_timestamp_safe now socket s ≡ s
  unfolding update_connection_timestamp_safe
  same_update now s u = rw (u, update_connection_timestamp_safe) refl

  same_request :
      (s : Server) (m : PerformanceMetrics) (request : HttpRequest) (round : Round)
      → Untimed socket s
      → http_request env base64_encode sha1_hash socket s m request round
        ≡ tls_http_request env s m request round
  unfolding http_request tls_http_request
  same_request s m request round u =
      let after = handle_request env s request in
      elim (Try-cases after.1) [
        | inr (e, q) ↦ rw (q, http_request, tls_http_request) refl
        | inl ((response, keep), q) ↦
            let same = same_update round.now after.0 (handle_request-Untimed s request u) in
            elim (Bool-cases (keep && after.0.keep_alive_enabled)) [
              | inl k ↦ rw (q, k, http_request, tls_http_request) (rw (same) refl)
              | inr k ↦ rw (q, k, http_request, tls_http_request) refl
            ]
      ]

  not-true : (b : Bool) → not b ≡ true → b ≡ false
  not-true false e = refl
  not-true true e = absurd (ground (arith, e))

  same_round :
      (s : Server) (m : PerformanceMetrics) (round : Round)
      → plain round ≡ true
      → Untimed socket s
      → connection_round env base64_encode sha1_hash socket s m round ≡ tls_round env s m round
  unfolding plain connection_round tls_round
  same_round s m round p u = elim (Option-cases round.request_text) [
    | inl q ↦ rw (q, connection_round, tls_round) refl
    | inr (text, q) ↦ elim (Try-cases (parse new_request text)) [
      | inr (e, r) ↦ rw (q, connection_round, tls_round, r) refl
      | inl ((request, true), r) ↦
          let ordinary = not-true _ (rw (q, plain, r) at p) in
          rw (q, connection_round, tls_round, r, ordinary) (same_request s m request round u)
      | inl ((request, false), r) ↦ rw (q, connection_round, tls_round, r) refl
    ]
  ]

  tls_round-Untimed :
      (s : Server) (m : PerformanceMetrics) (round : Round)
      → Untimed socket s
      → Untimed socket (tls_round env s m round).0.server
  tls_round-Untimed = tls_round_keeps (Untimed socket) create_user-Untimed (λ s n u. u) env

  -- Over a connection whose time the server does not keep, and on which no request asks for an upgrade
  -- to WebSocket, `handle_tls_http_connection` leaves the same server and the same metrics as
  -- `handle_http_connection` and sends the same responses in the same order.
  pub handle_http_connection-handle_tls_http_connection :
      (s : Server) (m : PerformanceMetrics) (rounds : List Round)
      → all_plain rounds ≡ true
      → Untimed socket s
      → handle_http_connection env base64_encode sha1_hash socket s m rounds
        ≡ handle_tls_http_connection env s m rounds
  unfolding all_plain handle_http_connection handle_tls_http_connection
  handle_http_connection-handle_tls_http_connection s m [] p u = refl
  handle_http_connection-handle_tls_http_connection s m (round ∷ rounds) p u =
      let (now, rest) : (plain round ≡ true) × (all_plain rounds ≡ true) = ground (arith, p) in
      let t = tls_round env s m round in
      rw
        (
          same_round s m round now u,
          handle_http_connection-handle_tls_http_connection t.0.server t.0.metrics rounds rest
              (tls_round-Untimed s m round u),
        )
        refl
