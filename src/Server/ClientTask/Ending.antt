-- ===== src/Server/ClientTask/Ending.antt =====
-- How `handle_client_task` of src/core/server.cpp leaves the tables of the server.
use web_server_http.Common.{ℕ, true, List, Bytes, ◌≢◌, refl}
use web_server_http.Metrics.{PerformanceMetrics}
use web_server_http.Server.Api.{Environment}
use web_server_http.Server.ClientTask.{
  TaskRound, again, ended, to_websocket, to_http2, TaskState, task_rounds, remove_connection,
  give_up, handle_client_task,
}
use web_server_http.Server.Clients.Released.{Gone, removed-Gone}
use web_server_http.Server.Http2Connection.{Http2End}
use web_server_http.Server.State.{Server}

-- If the lock is had at the end and the socket is given up, the server neither lists it nor keeps a time.
give_up-Gone :
    (socket : ℕ) (serve : Bytes → Bytes × Http2End) (t : TaskState)
    → t.3 ≢ again
    → t.3 ≢ to_websocket
    → Gone socket (give_up socket serve true t).0.0
unfolding give_up remove_connection
give_up-Gone socket serve (s, m, responses, again) a w = absurd (a refl)
give_up-Gone socket serve (s, m, responses, to_websocket) a w = absurd (w refl)
give_up-Gone socket serve (s, m, responses, ended) a w = removed-Gone socket s
give_up-Gone socket serve (s, m, responses, to_http2 bytes) a w = removed-Gone socket s

-- A task whose loop is left, but not for a WebSocket session, gives its socket up, if the lock of the
-- table is had at the end.
pub handle_client_task-Gone :
    (env : Environment) (base64_encode sha1_hash : Bytes → Bytes) (socket : ℕ)
    (serve : Bytes → Bytes × Http2End) (s : Server) (m : PerformanceMetrics) (rs : List TaskRound)
    → let step = (task_rounds env base64_encode sha1_hash socket s m rs).3 in
      step ≢ again
      → step ≢ to_websocket
      → Gone socket (handle_client_task env base64_encode sha1_hash socket serve true s m rs).0.0
unfolding handle_client_task
handle_client_task-Gone env base64_encode sha1_hash socket serve s m rs a w =
    give_up-Gone socket serve (task_rounds env base64_encode sha1_hash socket s m rs) a w
