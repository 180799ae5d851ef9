-- ===== src/Metrics.antt =====
-- class PerformanceMetrics of include/handlers/websocket_handler.h and
-- src/handlers/websocket_handler.cpp. Times are nanoseconds of the steady clock. A `double` that is
-- only printed is kept as its text.
pub mod History
pub mod MetricsText
pub mod RateText
pub mod System
mod Tests
use web_server_http.Common.{
  ℕ, zero, suc, ◌+◌, ◌-◌, ◌*◌, ◌/◌, List, [], ◌∷◌, ◌++◌, ltb, leb, ◌==◌, if◌then◌else◌, length,
  Bytes, codes,
}
use web_server_http.Common.Numbers.{to_string}

pub record RequestMetric : Type 0 where
  pub timestamp : ℕ
  pub response_time_ms : ℕ
  pub status_code : ℕ
  pub method : Bytes
  pub path : Bytes

pub record SystemMetric : Type 0 where
  pub timestamp : ℕ
  pub memory_usage_mb : ℕ
  pub cpu_usage_percent : Bytes
  pub active_connections : ℕ
  pub total_requests : ℕ
  pub requests_last_minute : ℕ
  pub queue_size : ℕ
  pub thread_count : ℕ

pub record PerformanceMetrics : Type 0 where
  pub request_history : List RequestMetric
  pub system_history : List SystemMetric
  pub total_requests : ℕ
  pub requests_last_minute : ℕ
  pub last_minute_reset : ℕ

abbrev pub max_request_history : ℕ
max_request_history = 1000

abbrev pub max_system_history : ℕ
max_system_history = 300

abbrev pub new_metrics : ℕ → PerformanceMetrics
new_metrics now = record {
  request_history = [];
  system_history = [];
  total_requests = 0;
  requests_last_minute = 0;
  last_minute_reset = now;
}

-- `while (queue.size() > limit) queue.pop();`
unfoldable pub trim_history {ℓ} : {A : Type ℓ} → ℕ → List A → List A
trim_history limit [] = []
trim_history limit (x ∷ xs) = if ltb limit (length (x ∷ xs)) then trim_history limit xs else x ∷ xs

unfoldable pub update_request_rate : ℕ → PerformanceMetrics → PerformanceMetrics
update_request_rate now m =
    if leb 1 ((now - m.last_minute_reset) / 60000000000)
    then record m { requests_last_minute = 0; last_minute_reset = now }
    else m

unfoldable pub record_request : ℕ → Bytes → Bytes → ℕ → ℕ → PerformanceMetrics → PerformanceMetrics
unfolding trim_history update_request_rate
record_request now method path status_code response_time_ms m = update_request_rate now (record m {
  request_history = trim_history max_request_history (m.request_history ++ metric ∷ []);
  total_requests = m.total_requests + 1;
  requests_last_minute = m.requests_last_minute + 1;
})
  where
    metric : RequestMetric
    metric = record {
      timestamp = now;
      response_time_ms = response_time_ms;
      status_code = status_code;
      method = method;
      path = path;
    }

-- `measured` is what `get_memory_usage` gives.
unfoldable pub record_system_metrics :
    ℕ → ℕ → ℕ → Bytes → ℕ → ℕ → ℕ → PerformanceMetrics → PerformanceMetrics
unfolding trim_history
record_system_metrics now measured memory_mb cpu active queue threads m = record m {
  system_history = trim_history max_system_history (m.system_history ++ metric ∷ []);
}
  where
    metric : SystemMetric
    metric = record {
      timestamp = now;
      memory_usage_mb = if ltb 0 memory_mb then memory_mb else measured;
      cpu_usage_percent = cpu;
      active_connections = active;
      total_requests = m.total_requests;
      requests_last_minute = m.requests_last_minute;
      queue_size = queue;
      thread_count = threads;
    }

unfoldable pub get_metrics_json : ℕ → PerformanceMetrics → Bytes
unfolding to_string
get_metrics_json now m =
    codes "{\"type\":\"metrics\",\"data\":{\"total_requests\":"
    ++ (to_string m.total_requests
        ++ (codes ",\"requests_per_minute\":"
            ++ (to_string m.requests_last_minute
                ++ (codes ",\"timestamp\":" ++ (to_string (now / 1000000) ++ codes "}}")))))

-- How many requests are `age` whole seconds old.
unfoldable pub requests_aged : ℕ → ℕ → List RequestMetric → ℕ
requests_aged now age [] = 0
requests_aged now age (r ∷ rs) =
    (if (now - r.timestamp) / 1000000000 == age then 1 else 0) + requests_aged now age rs

-- `age` seconds before the time of the clock, in whole milliseconds: the clock starts at 0, and an
-- earlier time is negative.
unfoldable pub time_before : ℕ → ℕ → Bytes
unfolding to_string
time_before now age =
    if leb (now + 1000000) (age * 1000000000)
    then b'-' ∷ to_string ((age * 1000000000 - now) / 1000000)
    else to_string ((now - age * 1000000000) / 1000000)

-- The entries for the ages below `age`, the oldest first.
unfoldable pub rate_entries : ℕ → List RequestMetric → ℕ → Bytes
unfolding requests_aged time_before to_string
rate_entries now history zero = []
rate_entries now history (suc age) =
    codes "{\"timestamp\":"
    ++ (time_before now age
        ++ (codes ",\"count\":"
            ++ (to_string (requests_aged now age history)
                ++ (codes "}"
                    ++ (if age == 0 then [] else codes "," ++ rate_entries now history age)))))

unfoldable pub get_request_rate_json : ℕ → PerformanceMetrics → Bytes
unfolding rate_entries
get_request_rate_json now m =
    codes "{\"type\":\"request_rate\",\"data\":["
    ++ (rate_entries now m.request_history 60 ++ codes "]}")

-- `per_second` prints the sixtieth part of a count with two decimals.
module _ (per_second : ℕ → Bytes) where
  unfoldable pub system_entry : SystemMetric → Bytes
  unfolding to_string
  system_entry s =
      codes "{\"timestamp\":"
      ++ (to_string (s.timestamp / 1000000)
          ++ (codes ",\"memory_mb\":"
              ++ (to_string s.memory_usage_mb
                  ++ (codes ",\"cpu_percent\":"
                      ++ (s.cpu_usage_percent
                          ++ (codes ",\"active_connections\":"
                              ++ (to_string s.active_connections
                                  ++ (codes ",\"total_requests\":"
                                      ++ (to_string s.total_requests
                                          ++ (codes ",\"requests_per_second\":"
                                              ++ (per_second s.requests_last_minute
                                                  ++ (codes ",\"queue_size\":"
                                                      ++ (to_string s.queue_size
                                                          ++ (codes ",\"thread_count\":"
                                                            ++ (to_string s.thread_count
                                                            ++ codes "}")))))))))))))))

  unfoldable pub system_entries : List SystemMetric → Bytes
  unfolding system_entry
  system_entries [] = []
  system_entries (s ∷ []) = system_entry s
  system_entries (s ∷ t ∷ rest) = system_entry s ++ (codes "," ++ system_entries (t ∷ rest))

  unfoldable pub get_system_metrics_json : PerformanceMetrics → Bytes
  unfolding system_entries
  get_system_metrics_json m =
      codes "{\"type\":\"system_metrics\",\"data\":["
      ++ (system_entries m.system_history ++ codes "]}")
