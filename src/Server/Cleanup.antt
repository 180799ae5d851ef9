-- ===== src/Server/Cleanup.antt =====
-- `cleanup` of src/core/server.cpp, which the destructor of `WebServer` runs as well.
pub mod Complete
mod Tests
use web_server_http.Common.{
  ℕ, zero, suc, Bool, true, false, List, [], ◌++◌, Option, none, some, if◌then◌else◌,
}
use web_server_http.Server.State.{Server, close_all_sockets}
use web_server_http.Server.Tls.Context.{TlsState, held, cleanup_ssl_context}
use web_server_http.ThreadPool.{
  ThreadPool, Coordinator, request_shutdown, thread_exiting, all_threads_stopped,
  force_shutdown_threads,
}
use web_server_http.WebSocket.Connections.{Table, stop}

-- What the server owns. A component is `none` once its pointer is reset.
pub record Owned : Type 0 where
  pub server_fd : Option ℕ
  pub coordinator : Coordinator
  pub metrics_running : Bool
  pub websocket_handler : Option Table
  pub thread_pool : Option ThreadPool
  pub tls : TlsState
  pub server : Server
  pub file_handler : Bool
  pub performance_metrics : Bool

-- `stop` of the WebSocket handler, if there is one: the sockets that it closes.
unfoldable pub stop_websocket : Option Table → List ℕ
unfolding stop
stop_websocket none = []
stop_websocket (some table) = (stop table).1

-- So many threads report that they exit.
unfoldable pub threads_exit : ℕ → Coordinator → Coordinator
unfolding thread_exiting
threads_exit zero c = c
threads_exit (suc n) c = thread_exiting (threads_exit n c)

-- `wait_for_all_threads` behind the exits, with what is done if it runs out of time.
unfoldable pub wait_or_force : Coordinator → Coordinator
unfolding all_threads_stopped force_shutdown_threads
wait_or_force c = if all_threads_stopped c then c else force_shutdown_threads c

-- `leaving` threads exit meanwhile. The descriptors that are closed, in order, and the contexts of
-- OpenSSL that are freed are results. The tasks of the pool go with the pool.
unfoldable pub cleanup : (leaving : ℕ) → Owned → Owned × List ℕ × List ℕ
unfolding wait_or_force threads_exit request_shutdown stop_websocket close_all_sockets
    cleanup_ssl_context
cleanup leaving w =
    let (closed_server, sockets) = close_all_sockets w.server in
    let (tls, contexts) = cleanup_ssl_context w.tls in
    (
      record {
        server_fd = none;
        coordinator = wait_or_force (threads_exit leaving (request_shutdown w.coordinator));
        metrics_running = false;
        websocket_handler = none;
        thread_pool = none;
        tls = tls;
        server = record closed_server { connection_timestamps = []; users_data = [] };
        file_handler = false;
        performance_metrics = false;
      },
      held w.server_fd ++ (stop_websocket w.websocket_handler ++ sockets),
      contexts,
    )
