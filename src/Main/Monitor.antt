-- ===== src/Main/Monitor.antt =====
-- `monitor_server_stats` of src/core/main.cpp. A round has what the flags, the clock and the server give.
use web_server_http.Common.{
  ℕ, ◌+◌, ◌-◌, ◌/◌, ◌%◌, ◌^◌, ◌<◌, ◌≤◌, Bool, List, [], ◌∷◌, ◌≡◌, ltb, if◌then◌else◌, Bool-cases,
  inl, inr, arith,
}

pub record StatsRound : Type 0 where
  pub stopped : Bool
  pub uptime : ℕ
  pub current_requests : ℕ
  pub active_connections : ℕ

-- The numbers that are printed.
pub record Report : Type 0 where
  pub uptime : ℕ
  pub total_requests : ℕ
  pub requests_per_30s : ℕ
  pub active_connections : ℕ
  pub average : ℕ

unfoldable pub report_of : ℕ → StatsRound → Report
report_of last_request_count r = record {
  uptime = r.uptime;
  total_requests = r.current_requests;
  requests_per_30s = (r.current_requests + 2 ^ 64 - last_request_count) % 2 ^ 64;
  active_connections = r.active_connections;
  average = if ltb 0 r.uptime then r.current_requests / r.uptime else 0;
}

unfoldable pub monitor_server_stats : ℕ → List StatsRound → List Report
unfolding report_of
monitor_server_stats last_request_count [] = []
monitor_server_stats last_request_count (r ∷ rs) =
    let later = monitor_server_stats r.current_requests rs in
    if r.stopped then [] else report_of last_request_count r ∷ later

abbrev total_per_30s : List Report → ℕ
total_per_30s [] = 0
total_per_30s (r ∷ rs) = r.requests_per_30s + total_per_30s rs

-- The total of the last report, or what there was before.
abbrev last_total : ℕ → List Report → ℕ
last_total n [] = n
last_total n (r ∷ rs) = last_total r.total_requests rs

-- A counter that only grows and does not wrap.
abbrev Growing : ℕ → List StatsRound → Type 0
Growing n [] = Unit
Growing n (r ∷ rs) =
    (n ≤ r.current_requests) × (r.current_requests < 2 ^ 64) × Growing r.current_requests rs

-- The requests that the reports give for their half minutes add up to those that came.
monitor_server_stats_lem :
    (n : ℕ) (rs : List StatsRound)
    → Growing n rs
    → n + total_per_30s (monitor_server_stats n rs) ≡ last_total n (monitor_server_stats n rs)
unfolding monitor_server_stats report_of
monitor_server_stats_lem n [] h = omega arith
monitor_server_stats_lem n (r ∷ rs) (h, l, g) = elim (Bool-cases r.stopped) [
  | inl q ↦ rw q (omega arith)
  | inr q ↦ rw q (omega (arith, h, l, monitor_server_stats_lem r.current_requests rs g))
]
