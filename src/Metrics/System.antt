-- ===== src/Metrics/System.antt =====
-- `get_memory_usage` and `get_cpu_usage` of src/handlers/websocket_handler.cpp. The lines of
-- /proc/self/status and the clock are arguments.
use web_server_http.Common.{
  ℕ, ◌+◌, ◌-◌, ◌/◌, ◌%◌, ◌^◌, ◌<◌, Bool, true, false, List, [], ◌∷◌, ◌++◌, ◌≡◌, refl, ap, ◌∙◌,
  Option, none, some, ltb, if◌then◌else◌, Bytes, codes, is_prefix, is_space, Try, returned, ◌>>=◌,
  Bool-cases, inl, inr, arith,
}
use web_server_http.Common.Digits.{stoul-to_string, digits-some, to_string-digits}
use web_server_http.Common.Numbers.{to_string, stoul}
use web_server_http.HttpRequest.{extract}
use web_server_http.HttpRequest.Lines.{to_string-spaceless, extract-word, extract-space}

-- The second word of a line; empty if there is none.
abbrev word_or_empty : Option (Bytes × Bytes) → Bytes
word_or_empty none = []
word_or_empty (some (word, rest)) = word

abbrev second_of : Option (Bytes × Bytes) → Bytes
second_of none = []
second_of (some (key, rest)) = word_or_empty (extract rest)

unfoldable pub second_word : Bytes → Bytes
second_word line = second_of (extract line)

unfoldable pub get_memory_usage : List Bytes → Try ℕ
unfolding is_prefix second_word stoul
get_memory_usage [] = returned 0
get_memory_usage (line ∷ lines) =
    let later = get_memory_usage lines in
    if is_prefix (codes "VmRSS:") line
    then (stoul (second_word line) >>= λ kilobytes. returned (kilobytes / 1024))
    else later

-- The static variables of `get_cpu_usage`; times are nanoseconds.
pub record CpuClock : Type 0 where
  pub last_time : ℕ
  pub last_requests : ℕ

-- The estimate is made from a number of requests and of seconds: the lesser of 100 and half the rate.
-- `none` is 0.0, without an estimate.
unfoldable pub get_cpu_usage : ℕ → ℕ → CpuClock → CpuClock × Option (ℕ × ℕ)
get_cpu_usage now total_requests c =
    let seconds = (now - c.last_time) / 1000000000 in
    if ltb 0 seconds
    then (
      record { last_time = now; last_requests = total_requests },
      some ((total_requests + 2 ^ 64 - c.last_requests) % 2 ^ 64, seconds),
    )
    else (c, none)

abbrev memory_line : ℕ → Bytes → Bytes
memory_line n unit = codes "VmRSS:" ++ b' ' ∷ (to_string n ++ b' ' ∷ unit)

second_word-memory_line : (n : ℕ) (unit : Bytes) → second_word (memory_line n unit) ≡ to_string n
unfolding second_word is_space
second_word-memory_line n unit =
    let value : Bytes = to_string n ++ b' ' ∷ unit in
    ap second_of (extract-word (codes "VmRSS:") (b' ' ∷ value) refl refl refl)
    ∙ ap word_or_empty (
        extract-space value
        ∙ extract-word (to_string n) (b' ' ∷ unit) (digits-some (to_string n) (to_string-digits n))
            (to_string-spaceless n) refl)

abbrev no_memory_line : List Bytes → Bool
no_memory_line [] = true
no_memory_line (line ∷ lines) =
    if is_prefix (codes "VmRSS:") line then false else no_memory_line lines

-- The first line of the resident set gives its size in mebibytes.
get_memory_usage-memory_line :
    (before : List Bytes) (n : ℕ) (unit : Bytes) (lines : List Bytes)
    → no_memory_line before ≡ true
    → n < 2 ^ 64
    → get_memory_usage (before ++ memory_line n unit ∷ lines) ≡ returned (n / 1024)
unfolding get_memory_usage is_prefix
get_memory_usage-memory_line [] n unit lines h l =
    ap (λ w. stoul w >>= λ kilobytes. returned (kilobytes / 1024)) (second_word-memory_line n unit)
    ∙ ap (λ t. t >>= λ kilobytes. returned (kilobytes / 1024)) (stoul-to_string n l)
get_memory_usage-memory_line (line ∷ before) n unit lines h l =
    elim (Bool-cases (is_prefix (codes "VmRSS:") line)) [
      | inl q ↦ absurd (ground (arith, q, h))
      | inr q ↦
          rw (q, get_memory_usage) (get_memory_usage-memory_line before n unit lines (rw q at h) l)
    ]
