-- ===== src/Server/Collecting.antt =====
-- The metrics thread of src/core/server.cpp, and `record_request_metric`.
use web_server_http.Common.{
  ℕ, ◌≤◌, Bool, true, false, List, [], ◌∷◌, ◌||◌, not, Option, none, some, if◌then◌else◌, length,
  Bytes, Bool-cases, inl, inr, arith,
}
use web_server_http.Metrics.{
  PerformanceMetrics, record_request, record_system_metrics, trim_history, max_system_history,
}
use web_server_http.Server.State.{Server, get_active_connections}
use web_server_http.ThreadPool.{ThreadPool, get_queue_size}

-- `metrics_running.exchange(true)`: the flag afterwards, and whether a thread is started.
unfoldable pub start_metrics_collection : Bool → Bool × Bool
start_metrics_collection metrics_running = (true, not metrics_running)

-- The flag afterwards, and whether a thread is joined.
unfoldable pub stop_metrics_collection : (joinable : Bool) → Bool × Bool
stop_metrics_collection joinable = (false, joinable)

unfoldable pub get_thread_count : ThreadPool → ℕ
get_thread_count p = length p.workers

-- A round of the thread: what it reads of the flags before and behind its sleep and before it records;
-- the server, the pool, and whether their locks are had; the clients of the WebSocket handler; and what
-- the system tells of memory and processor time.
pub record CollectRound : Type 0 where
  pub metrics_running : Bool
  pub asked_before : Bool
  pub asked_behind : Bool
  pub asked_last : Bool
  pub server : Server
  pub table_locked : Bool
  pub websocket_count : ℕ
  pub pool : ThreadPool
  pub queue_locked : Bool
  pub now : ℕ
  pub memory : ℕ
  pub cpu : Bytes

-- The sample of a round. Memory is asked for with 0, so that it is measured.
unfoldable pub collected : CollectRound → PerformanceMetrics → PerformanceMetrics
unfolding get_active_connections get_queue_size get_thread_count
collected r m =
    record_system_metrics r.now r.memory 0 r.cpu
      (get_active_connections r.table_locked r.websocket_count r.server)
      (get_queue_size r.queue_locked r.pool) (get_thread_count r.pool) m

-- The loop of the thread that `start_metrics_collection` starts.
unfoldable pub collection_thread : List CollectRound → PerformanceMetrics → PerformanceMetrics
collection_thread [] m = m
collection_thread (r ∷ rs) m =
    let kept = if r.asked_last then m else collected r m in
    let later = collection_thread rs kept in
    if not r.metrics_running || (r.asked_before || r.asked_behind) then m else later

-- `metrics_collection_loop`, which does not read the shutdown flag.
unfoldable pub metrics_collection_loop : List CollectRound → PerformanceMetrics → PerformanceMetrics
metrics_collection_loop [] m = m
metrics_collection_loop (r ∷ rs) m =
    let later = metrics_collection_loop rs (collected r m) in if r.metrics_running then later else m

-- `record_request_metric`: the flag of the signal handler stops the records.
unfoldable pub record_request_metric :
    Bool → ℕ → Bytes → Bytes → ℕ → ℕ → Option PerformanceMetrics → Option PerformanceMetrics
record_request_metric asked now method path status_code duration none = none
record_request_metric asked now method path status_code duration (some m) =
    if asked then some m else some (record_request now method path status_code duration m)

length-trim_history :
    {A : Type 0} (limit : ℕ) (xs : List A) → length (trim_history limit xs) ≤ limit
unfolding trim_history
length-trim_history limit [] = omega arith
length-trim_history limit (x ∷ xs) = ground (arith, length-trim_history limit xs)

collected-bounded :
    (r : CollectRound) (m : PerformanceMetrics)
    → length (collected r m).system_history ≤ max_system_history
unfolding collected record_system_metrics
collected-bounded r m = search length-trim_history

-- The samples of the system stay within their limit of 300.
pub collection_thread-bounded :
    (rs : List CollectRound) (m : PerformanceMetrics)
    → length m.system_history ≤ max_system_history
    → length (collection_thread rs m).system_history ≤ max_system_history
unfolding collection_thread
collection_thread-bounded [] m h = h
collection_thread-bounded (r ∷ rs) m h =
    elim (Bool-cases (not r.metrics_running || (r.asked_before || r.asked_behind))) [
      | inl q ↦ rw (q, collection_thread) h
      | inr q ↦ rw (q, collection_thread) (collection_thread-bounded rs _ (kept r.asked_last))
    ]
  where
    kept : (b : Bool) → length (if b then m else collected r m).system_history ≤ max_system_history
    kept true = h
    kept false = collected-bounded r m
