-- ===== src/Server/Cleanup/Tests.antt =====
-- The theorem on `cleanup` at a concrete input.
use web_server_http.Common.{true, false, [], ◌∷◌, ◌++◌, ◌≡◌, some, codes}
use web_server_http.Server.Cleanup.{Owned, cleanup}
use web_server_http.Server.Cleanup.Complete.{websocket_sockets, cleanup_complete}
use web_server_http.Server.State.{new_server}
use web_server_http.Server.Tls.Context.{held}
use web_server_http.ThreadPool.{new_pool, new_coordinator}

-- A listening socket, a client of the WebSocket handler and two open connections.
abbrev owned : Owned
unfolding new_pool
owned = record {
  server_fd = some 3;
  coordinator = new_coordinator;
  metrics_running = true;
  websocket_handler = some (
      (
        codes "c",
        record { socket = 6; client_id = codes "c"; last_ping = 0; is_authenticated = false },
      )
      ∷ []);
  thread_pool = some (new_pool 2);
  tls = record { tls_enabled = true; ssl_ctx = some 1; cert_file = []; key_file = [] };
  server = record new_server { sockets = 4 ∷ 5 ∷ [] };
  file_handler = true;
  performance_metrics = true;
}

cleanup_complete_example :
    let (after, closed, freed) = cleanup 2 owned in
    (closed
      ≡ held owned.server_fd ++ (websocket_sockets owned.websocket_handler ++ owned.server.sockets))
    × (freed ≡ held owned.tls.ssl_ctx)
    × (after.coordinator.shutdown_requested ≡ true)
    × (cleanup 0 after ≡ (after, [], []))
cleanup_complete_example = cleanup_complete 2 owned
