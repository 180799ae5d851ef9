-- ===== src/Metrics/RateText.antt =====
-- The text of the request rate that the handler sends to WebSocket clients, and `JsonHandler::parse`.
use web_server_http.Common.{
  ℕ, zero, suc, Bool, false, leb, ◌+◌, ◌/◌, ◌-◌, ◌*◌, ◌<◌, ◌≤◌, List, [], ◌∷◌, ◌++◌, ◌≡◌, refl, ap,
  ap₂, map, ◌∙◌, sym, append_assoc, length, ◌==◌, if◌then◌else◌, Bytes, codes, equal, arith,
}
use web_server_http.Common.Dict.{bytes_less}
use web_server_http.Common.Numbers.{to_string}
use web_server_http.Json.Parse.{parse, done}
use web_server_http.Json.Print.{
  to_text, items_text, fields_text, quoted, escape_string, escape_byte,
}
use web_server_http.Json.Reading.{Printable, PrintableItems, sorted, sorted_items, parse-sorted}
use web_server_http.Json.Value.{
  Double, JsonValue, number, string, array, object, Items, nil, cons, field, end, set_field,
}
use web_server_http.Json.WholeNumbers.{Exact, whole-Readable}
use web_server_http.Metrics.{
  PerformanceMetrics, RequestMetric, get_request_rate_json, rate_entries, requests_aged,
  time_before,
}

regroup :
    (a b c e f k t : Bytes)
    → (a ++ (b ++ (c ++ (e ++ (f ++ k))))) ++ t ≡ a ++ (b ++ (c ++ (e ++ (f ++ (k ++ t)))))
regroup a b c e f k t = simp append_assoc

-- The comma behind every entry but the last.
more_follow : {A : Type 0} (n : ℕ) (x y : A) → (if suc n == 0 then x else y) ≡ y
more_follow n x y = ground arith

if_false : {A : Type 0} {b : Bool} (x y : A) → b ≡ false → (if b then x else y) ≡ y
if_false x y e = rw (e) refl

-- How often a number stands in a list, and the ages of requests in whole seconds.
abbrev pub occurrences : ℕ → List ℕ → ℕ
occurrences n [] = 0
occurrences n (x ∷ xs) = (if x == n then 1 else 0) + occurrences n xs

abbrev pub ages : ℕ → List RequestMetric → List ℕ
ages now history = map (λ r. (now - r.timestamp) / 1000000000) history

requests_aged-occurrences :
    (now age : ℕ) (history : List RequestMetric)
    → requests_aged now age history ≡ occurrences age (ages now history)
unfolding requests_aged
requests_aged-occurrences now age [] = refl
requests_aged-occurrences now age (r ∷ rs) =
    ap (λ n. (if (now - r.timestamp) / 1000000000 == age then 1 else 0) + n)
      (requests_aged-occurrences now age rs)

module _ (d : Double) (whole : ℕ → d.Carrier) (limit : ℕ) where
  open d use {Carrier}

  -- The entry for the requests of an age, and the entries from an age below down to 0.
  abbrev age_value : ℕ → List RequestMetric → ℕ → JsonValue Carrier
  unfolding requests_aged
  age_value now history age = object (
      field (codes "timestamp") (number (whole ((now - age * 1000000000) / 1000000)))
        (field (codes "count") (number (whole (requests_aged now age history))) end))

  age_values : ℕ → List RequestMetric → ℕ → Items Carrier
  unfolding age_value
  age_values now history zero = nil
  age_values now history (suc age) = cons (age_value now history age) (age_values now history age)

  requests_aged-le :
      (now age : ℕ) (history : List RequestMetric) → requests_aged now age history ≤ length history
  unfolding requests_aged
  requests_aged-le now age [] = omega arith
  requests_aged-le now age (r ∷ rs) = ground (arith, requests_aged-le now age rs)

  -- The clock shows no earlier time than that.
  shown :
      (now age : ℕ)
      → 59000000000 ≤ now
      → age ≤ 59
      → time_before now age ≡ to_string ((now - age * 1000000000) / 1000000)
  unfolding time_before
  shown now age hp ha =
      if_false {b = leb (now + 1000000) (age * 1000000000)} _ _ (ground (arith, hp, ha))

  entry_text :
      (now age : ℕ) (history : List RequestMetric) (t : Bytes)
      → age ≤ 59
      → Exact d whole limit
      → 59000000000 ≤ now
      → now / 1000000 < limit
      → length history < limit
      → codes "{\"timestamp\":"
          ++ (time_before now age
              ++ (codes ",\"count\":"
                  ++ (to_string (requests_aged now age history) ++ (codes "}" ++ t))))
        ≡ to_text d (age_value now history age) ++ t
  unfolding to_text fields_text quoted escape_string escape_byte age_value
  entry_text now age history t ha exact hp hn hl =
      let few = requests_aged-le now age history in
      rw
        (
          shown now age hp ha,
          (exact ((now - age * 1000000000) / 1000000) (omega (arith, hn))).0,
          (exact (requests_aged now age history) (omega (arith, hl, few))).0,
        )
        (simp append_assoc)

  rate_entries-to_text :
      (now : ℕ) (history : List RequestMetric) (age : ℕ)
      → age ≤ 59
      → Exact d whole limit
      → 59000000000 ≤ now
      → now / 1000000 < limit
      → length history < limit
      → rate_entries now history (suc age) ++ codes "]"
        ≡ to_text d (age_value now history age) ++ items_text d (age_values now history age)
  unfolding rate_entries items_text age_values
  rate_entries-to_text now history zero ha exact hp hn hl =
      regroup (codes "{\"timestamp\":") (time_before now 0) (codes ",\"count\":")
        (to_string (requests_aged now 0 history)) (codes "}") [] (codes "]")
      ∙ entry_text now 0 history (codes "]") ha exact hp hn hl
  rate_entries-to_text now history (suc age) ha exact hp hn hl =
      ap
        (λ k.
          (codes "{\"timestamp\":"
            ++ (time_before now (suc age)
                ++ (codes ",\"count\":"
                    ++ (to_string (requests_aged now (suc age) history) ++ (codes "}" ++ k)))))
          ++ codes "]")
        (more_follow age [] (codes "," ++ rate_entries now history (suc age)))
      ∙ regroup (codes "{\"timestamp\":") (time_before now (suc age)) (codes ",\"count\":")
          (to_string (requests_aged now (suc age) history)) (codes "}")
          (codes "," ++ rate_entries now history (suc age)) (codes "]")
      ∙ entry_text now (suc age) history
          (codes "," ++ (rate_entries now history (suc age) ++ codes "]")) ha exact hp hn hl
      ∙ ap (λ t. to_text d (age_value now history (suc age)) ++ b',' ∷ t)
          (rate_entries-to_text now history age (omega (arith, ha)) exact hp hn hl)

  age_values-Printable :
      (now : ℕ) (history : List RequestMetric) (age : ℕ)
      → Exact d whole limit
      → 59000000000 ≤ now
      → now / 1000000 < limit
      → length history < limit
      → PrintableItems d (age_values now history age)
  unfolding Printable age_values age_value
  age_values-Printable now history zero exact hp hn hl = tt
  age_values-Printable now history (suc age) exact hp hn hl =
      let few = requests_aged-le now age history in
      (
        (
          whole-Readable d whole limit exact ((now - age * 1000000000) / 1000000)
              (omega (arith, hn)),
          (
            whole-Readable d whole limit exact (requests_aged now age history)
                (omega (arith, hl, few)),
            tt,
          ),
        ),
        age_values-Printable now history age exact hp hn hl,
      )

  -- What a client reads for an age: how many requests are that many seconds old.
  abbrev pub read_entry : ℕ → ℕ → JsonValue Carrier
  read_entry count timestamp = object (
      field (codes "count") (number (whole count))
        (field (codes "timestamp") (number (whole timestamp)) end))

  unfoldable pub read_entries : ℕ → List RequestMetric → ℕ → Items Carrier
  read_entries now history zero = nil
  read_entries now history (suc age) =
      cons (read_entry (occurrences age (ages now history)) ((now - age * 1000000000) / 1000000))
        (read_entries now history age)

  sorted-age_values :
      (now : ℕ) (history : List RequestMetric) (age : ℕ)
      → sorted_items d (age_values now history age) ≡ read_entries now history age
  unfolding sorted age_values age_value read_entries set_field equal bytes_less
  sorted-age_values now history zero = refl
  sorted-age_values now history (suc age) =
      ap₂ (λ n xs. cons (read_entry n ((now - age * 1000000000) / 1000000)) xs)
        (requests_aged-occurrences now age history) (sorted-age_values now history age)

  abbrev rate_value : ℕ → List RequestMetric → JsonValue Carrier
  unfolding age_values
  rate_value now history = object (
      field (codes "type") (string (codes "request_rate"))
        (field (codes "data") (array (age_values now history 60)) end))

  get_request_rate_json-to_text :
      (now : ℕ) (m : PerformanceMetrics)
      → Exact d whole limit
      → 59000000000 ≤ now
      → now / 1000000 < limit
      → length m.request_history < limit
      → get_request_rate_json now m ≡ to_text d (rate_value now m.request_history)
  unfolding get_request_rate_json rate_value age_values to_text fields_text items_text quoted
      escape_string escape_byte
  get_request_rate_json-to_text now m exact hp hn hl =
      ap (λ t. codes "{\"type\":\"request_rate\",\"data\":[" ++ t)
        (sym (append_assoc (rate_entries now m.request_history 60) (codes "]") (codes "}"))
          ∙ ap (λ s. s ++ codes "}")
              (rate_entries-to_text now m.request_history 59 (omega arith) exact hp hn hl))

  -- The text of the request rate is parsed, to its end, to its type and one entry for each of the last
  -- sixty seconds, the oldest first, with its time in milliseconds and the number of the requests of the
  -- history that are so old, as long as the clock has run for 59 seconds, and the time in milliseconds
  -- and the length of the history are exact.
  pub parse-get_request_rate_json :
      (now : ℕ) (m : PerformanceMetrics)
      → Exact d whole limit
      → 59000000000 ≤ now
      → now / 1000000 < limit
      → length m.request_history < limit
      → parse d (get_request_rate_json now m)
        ≡ done
            (object (
              field
                (codes "data")
                (array (read_entries now m.request_history 60))
                (field (codes "type") (string (codes "request_rate")) end)))
            []
  unfolding sorted Printable set_field equal bytes_less rate_value
  parse-get_request_rate_json now m exact hp hn hl =
      let readable = age_values-Printable now m.request_history 60 exact hp hn hl in
      ap (parse d) (get_request_rate_json-to_text now m exact hp hn hl)
      ∙ parse-sorted d (rate_value now m.request_history) (tt, (readable, tt))
      ∙ ap
          (λ xs.
            done
              (object (
                field (codes "data") (array xs)
                  (field (codes "type") (string (codes "request_rate")) end)))
              [])
          (sorted-age_values now m.request_history 60)
