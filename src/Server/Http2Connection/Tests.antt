-- ===== src/Server/Http2Connection/Tests.antt =====
-- The theorem on HTTP/2 connections at a concrete input.
use web_server_http.Common.{true, false, List, [], ◌∷◌, ◌++◌, some, codes, drop, refl, is_prefix}
use web_server_http.Http2.Transport.{connection_preface}
use web_server_http.Server.Http2Connection.{
  arrived, over, Http2Round, handle_http2_connection, handle_tls_http2_connection,
}
use web_server_http.Server.Http2Connection.Handover.{
  Exactly, all_arrived, handle_http2_connections-all,
}

abbrev round : Http2Round
round = record {
  shutdown_requested = false;
  want_read = true;
  want_write = false;
  incoming = arrived (codes "de");
  recv_result = some 2;
  flushed = true;
  want_write_after = false;
  flushed_after = true;
}

abbrev rounds : List Http2Round
rounds = round ∷ record round { incoming = over } ∷ round ∷ []

handle_http2_connections-all_example :
    Exactly
      (drop 24 (connection_preface ++ codes "abc") ++ all_arrived rounds)
      (handle_http2_connection true (connection_preface ++ codes "abc") (some 3) true rounds)
    × Exactly (all_arrived rounds) (handle_tls_http2_connection true rounds)
unfolding is_prefix
handle_http2_connections-all_example =
    handle_http2_connections-all (connection_preface ++ codes "abc") (some 3) true rounds refl
