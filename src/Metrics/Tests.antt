-- ===== src/Metrics/Tests.antt =====
-- The theorems on the metrics at concrete inputs.
use web_server_http.Common.{
  arith, ℕ, ◌^◌, Bool, false, true, refl, List, [], ◌∷◌, ◌≡◌, length, map, codes,
}
use web_server_http.Metrics.{
  PerformanceMetrics, max_request_history, new_metrics, get_request_rate_json,
}
use web_server_http.Common.Digits.{stoi-to_string}
use web_server_http.Common.Numbers.{stoi, to_string}
use web_server_http.Json.Parse.{parse, done}
use web_server_http.Json.Print.{number_text}
use web_server_http.Json.Value.{Double, array, object, field, end, string}
use web_server_http.Json.WholeNumbers.{Exact}
use web_server_http.Metrics.RateText.{read_entries, parse-get_request_rate_json}
use web_server_http.Metrics.History.{Request, record_all, metric_of, newest, record_all_lem}

abbrev two_requests : List Request
two_requests =
    record {
      now = 5000000;
      method = codes "GET";
      path = codes "/";
      status_code = 200;
      response_time_ms = 3;
    }
    ∷ record {
      now = 70000000000;
      method = codes "GET";
      path = codes "/a";
      status_code = 404;
      response_time_ms = 1;
    }
    ∷ []

record_all_lem_example :
    ((record_all two_requests (new_metrics 0)).request_history
      ≡ newest max_request_history (map metric_of two_requests))
    × ((record_all two_requests (new_metrics 0)).total_requests ≡ length two_requests)
record_all_lem_example = record_all_lem 0 two_requests

-- Numbers without digits behind the point.
abbrev integers : Double
integers = record {
  Carrier = Bool × ℕ;
  stod = stoi 10;
  of_int = λ n. n;
  is_whole = λ n. true;
  whole_text = λ n. to_string n.1;
  fixed_text = λ n. to_string n.1;
}

abbrev as_integer : ℕ → integers.Carrier
as_integer n = (false, n)

integers-Exact : Exact integers as_integer (2 ^ 31)
unfolding number_text
integers-Exact n h = (refl, stoi-to_string n h)

abbrev after_two : PerformanceMetrics
after_two = record (new_metrics 0) { request_history = map metric_of two_requests }

parse-get_request_rate_json_example :
    parse integers (get_request_rate_json 70500000000 after_two)
    ≡ done
        (object (
          field
            (codes "data")
            (array (
              read_entries integers as_integer
                (2 ^ 31)
                70500000000
                (map metric_of two_requests)
                60))
            (field (codes "type") (string (codes "request_rate")) end)))
        []
parse-get_request_rate_json_example =
    parse-get_request_rate_json integers as_integer (2 ^ 31) 70500000000 after_two integers-Exact
      (omega arith) (omega arith) (omega arith)
