-- ===== src/Metrics/MetricsText.antt =====
-- The text of the basic metrics that the handler sends to WebSocket clients, and `JsonHandler::parse`.
use web_server_http.Common.{ℕ, ◌/◌, ◌<◌, [], ◌≡◌, ap, ◌∙◌, append_assoc, codes, equal}
use web_server_http.Common.Dict.{bytes_less}
use web_server_http.Json.Parse.{parse, done}
use web_server_http.Json.Print.{to_text, fields_text, quoted, escape_string, escape_byte}
use web_server_http.Json.Reading.{Printable, sorted, parse-sorted}
use web_server_http.Json.Value.{Double, JsonValue, number, string, object, field, end, set_field}
use web_server_http.Json.WholeNumbers.{Exact, whole-Readable}
use web_server_http.Metrics.{PerformanceMetrics, get_metrics_json}

module _ (d : Double) (whole : ℕ → d.Carrier) (limit : ℕ) where
  open d use {Carrier}

  -- The value of `get_metrics_json`, with its fields as they are written.
  abbrev metrics_value : ℕ → PerformanceMetrics → JsonValue Carrier
  metrics_value now m = object (
      field (codes "type") (string (codes "metrics")) (
        field (codes "data")
          (object (
            field (codes "total_requests") (number (whole m.total_requests)) (
              field (codes "requests_per_minute") (number (whole m.requests_last_minute))
                (field (codes "timestamp") (number (whole (now / 1000000))) end))))
          end))

  get_metrics_json-to_text :
      (now : ℕ) (m : PerformanceMetrics)
      → Exact d whole limit
      → now / 1000000 < limit
      → m.total_requests < limit
      → m.requests_last_minute < limit
      → get_metrics_json now m ≡ to_text d (metrics_value now m)
  unfolding get_metrics_json to_text fields_text quoted escape_string escape_byte
  get_metrics_json-to_text now m exact hn ht hl =
      rw
        (
          (exact (now / 1000000) hn).0,
          (exact m.total_requests ht).0,
          (exact m.requests_last_minute hl).0,
        )
        (simp append_assoc)

  -- The text of the basic metrics is parsed, to its end, to an object with its type and the three numbers,
  -- as long as the numbers are exact.
  pub parse-get_metrics_json :
      (now : ℕ) (m : PerformanceMetrics)
      → Exact d whole limit
      → now / 1000000 < limit
      → m.total_requests < limit
      → m.requests_last_minute < limit
      → parse d (get_metrics_json now m)
        ≡ done
            (object (
              field
                (codes "data")
                (object (
                  field (codes "requests_per_minute") (number (whole m.requests_last_minute)) (
                    field
                      (codes "timestamp")
                      (number (whole (now / 1000000)))
                      (field (codes "total_requests") (number (whole m.total_requests)) end))))
                (field (codes "type") (string (codes "metrics")) end)))
            []
  unfolding sorted Printable set_field equal bytes_less
  parse-get_metrics_json now m exact hn ht hl =
      let readable = whole-Readable d whole limit exact in
      ap (parse d) (get_metrics_json-to_text now m exact hn ht hl)
      ∙ parse-sorted d (metrics_value now m) (
        tt,
        (
          (
            readable m.total_requests ht,
            (readable m.requests_last_minute hl, (readable (now / 1000000) hn, tt)),
          ),
          tt,
        ),
      )
