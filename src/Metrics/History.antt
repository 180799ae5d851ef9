-- ===== src/Metrics/History.antt =====
-- The two histories of `PerformanceMetrics` in src/handlers/websocket_handler.cpp, over any number of
-- requests.
use web_server_http.Common.{
  ℕ, suc, ◌+◌, ◌-◌, List, [], ◌∷◌, ◌++◌, ◌≡◌, refl, sym, ap, ◌∙◌, ltb, length, drop, Bytes, map,
  append-nil, append_assoc, length-append, length-drop, drop_nil, drop-drop, drop-append_le,
  Bool-cases, inl, inr, arith,
}
use web_server_http.Metrics.{
  RequestMetric, PerformanceMetrics, max_request_history, trim_history, update_request_rate,
  record_request, new_metrics,
}

-- The last `n` entries.
abbrev pub newest {ℓ} : {A : Type ℓ} → ℕ → List A → List A
newest n xs = drop (length xs - n) xs

module _ {A : Type 0} where
  -- Trimming keeps the newest entries.
  trim_history-newest : (limit : ℕ) (xs : List A) → trim_history limit xs ≡ newest limit xs
  unfolding trim_history
  trim_history-newest limit [] = sym (drop_nil (0 - limit))
  trim_history-newest limit (x ∷ xs) = elim (Bool-cases (ltb limit (suc (length xs)))) [
    | inl q ↦
        let more : suc (length xs) - limit ≡ suc (length xs - limit) = ground (arith, q) in
        rw (q, more) (trim_history-newest limit xs)
    | inr q ↦
        let none_more : suc (length xs) - limit ≡ 0 = ground (arith, q) in rw (q, none_more) refl
  ]

  -- Trimming in between makes no difference.
  newest-newest_append :
      (n : ℕ) (xs ys : List A) → newest n (newest n xs ++ ys) ≡ newest n (xs ++ ys)
  newest-newest_append n xs ys =
      let k = length xs - n in
      let shape : newest n xs ++ ys ≡ drop k (xs ++ ys) =
        sym (drop-append_le k xs ys (omega arith)) in
      ap (newest n) shape
      ∙ (drop-drop (length (drop k (xs ++ ys)) - n) k (xs ++ ys)
          ∙ ap (λ i. drop i (xs ++ ys))
              (omega (arith, length-drop k (xs ++ ys), length-append xs ys)))

-- A request as `record_request` is told of it.
pub record Request : Type 0 where
  pub now : ℕ
  pub method : Bytes
  pub path : Bytes
  pub status_code : ℕ
  pub response_time_ms : ℕ

unfoldable pub record_all : List Request → PerformanceMetrics → PerformanceMetrics
unfolding record_request
record_all [] m = m
record_all (r ∷ rs) m =
    record_all rs (record_request r.now r.method r.path r.status_code r.response_time_ms m)

abbrev pub metric_of : Request → RequestMetric
metric_of r = record {
  timestamp = r.now;
  response_time_ms = r.response_time_ms;
  status_code = r.status_code;
  method = r.method;
  path = r.path;
}

one_request :
    (r : Request) (m : PerformanceMetrics)
    → let m' = record_request r.now r.method r.path r.status_code r.response_time_ms m in
      (m'.request_history ≡ newest max_request_history (m.request_history ++ metric_of r ∷ []))
      × (m'.total_requests ≡ m.total_requests + 1)
unfolding record_request update_request_rate
one_request r m =
    ground (arith, trim_history-newest max_request_history (m.request_history ++ metric_of r ∷ []))

record_all_from :
    (rs : List Request) (m : PerformanceMetrics) (xs : List RequestMetric)
    → m.request_history ≡ newest max_request_history xs
    → ((record_all rs m).request_history ≡ newest max_request_history (xs ++ map metric_of rs))
      × ((record_all rs m).total_requests ≡ m.total_requests + length rs)
unfolding record_all
record_all_from [] m xs h = (h ∙ ap (newest max_request_history) (sym (append-nil xs)), omega arith)
record_all_from (r ∷ rs) m xs h =
    let m' = record_request r.now r.method r.path r.status_code r.response_time_ms m in
    let (e, t) = one_request r m in
    let (e', t') = record_all_from rs m' (xs ++ metric_of r ∷ []) (
      e
      ∙ (ap (λ l. newest max_request_history (l ++ metric_of r ∷ [])) h
          ∙ newest-newest_append max_request_history xs (metric_of r ∷ []))) in
    (
      e' ∙ ap (newest max_request_history) (append_assoc xs (metric_of r ∷ []) (map metric_of rs)),
      omega (arith, t, t'),
    )

-- Whatever requests are recorded, the history holds exactly the newest 1000 of them, oldest first,
-- and the total counts them all.
pub record_all_lem :
    (now : ℕ) (rs : List Request)
    → ((record_all rs (new_metrics now)).request_history
        ≡ newest max_request_history (map metric_of rs))
      × ((record_all rs (new_metrics now)).total_requests ≡ length rs)
record_all_lem now rs =
    let (e, t) =
      record_all_from rs (new_metrics now) [] (sym (drop_nil (0 - max_request_history))) in
    (e, omega (arith, t))
