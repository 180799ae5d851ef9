-- ===== src/Main/Options.antt =====
-- The command line of src/core/main.cpp: what options do, and what every accepted line keeps.
use web_server_http.Common.{
  ℕ, ◌+◌, ◌^◌, Bool, true, false, List, [], ◌∷◌, ◌++◌, ◌≡◌, refl, ◌∙◌, ap, ◌&&◌, ltb, leb, ◌==◌,
  if◌then◌else◌, Bytes, codes, equal, arith,
}
use web_server_http.Common.Digits.{stoi-to_string}
use web_server_http.Common.Numbers.{to_string}
use web_server_http.Main.{
  Config, Outcome, configured, argument_kind, is_positive, to_size, set_port, set_threads,
  set_timeout, next, take_argument, last_argument, parse_arguments,
}

-- An option as it is meant.
pub data Setting : Type 0 where
  use_port use_threads use_timeout : ℕ → Setting
  use_docroot : Bytes → Setting
  use_keep_alive : Bool → Setting

abbrev word : Bool → Bytes → Bytes → Bytes
word long short_name long_name = if long then long_name else short_name

-- The words for an option, by its long or its short name.
abbrev pub words : Bool → Setting → List Bytes
words long (use_port n) = word long (codes "-p") (codes "--port") ∷ to_string n ∷ []
words long (use_threads n) = word long (codes "-t") (codes "--threads") ∷ to_string n ∷ []
words long (use_timeout n) = word long (codes "-T") (codes "--timeout") ∷ to_string n ∷ []
words long (use_docroot path) = word long (codes "-d") (codes "--docroot") ∷ path ∷ []
words long (use_keep_alive true) = word long (codes "-k") (codes "--keep-alive") ∷ []
words long (use_keep_alive false) = codes "--no-keep-alive" ∷ []

unfoldable pub command_line : List (Bool × Setting) → List Bytes
command_line [] = []
command_line ((long, s) ∷ ss) = words long s ++ command_line ss

unfoldable pub in_range : Setting → Bool
in_range (use_port n) = ltb 0 n && leb n 65535
in_range (use_threads n) = ltb 0 n && ltb n (2 ^ 31)
in_range (use_timeout n) = ltb 0 n && ltb n (2 ^ 31)
in_range _ = true

unfoldable pub all_in_range : List (Bool × Setting) → Bool
unfolding in_range
all_in_range [] = true
all_in_range ((long, s) ∷ ss) = in_range s && all_in_range ss

abbrev pub applied : Setting → Config → Config
applied (use_port n) c = record c { port = (false, n) }
applied (use_threads n) c = record c { thread_count = n }
applied (use_timeout n) c = record c { keep_alive_timeout = (false, n) }
applied (use_docroot path) c = record c { doc_root = path }
applied (use_keep_alive b) c = record c { keep_alive_enabled = b }

unfoldable pub all_applied : List (Bool × Setting) → Config → Config
all_applied [] c = c
all_applied ((long, s) ∷ ss) c = all_applied ss (applied s c)

set_port-to_string :
    (n : ℕ) (c : Config)
    → in_range (use_port n) ≡ true
    → set_port (to_string n) c ≡ configured (applied (use_port n) c)
unfolding set_port in_range is_positive
set_port-to_string n c h = rw (stoi-to_string n (ground (arith, h)), h) refl

set_threads-to_string :
    (n : ℕ) (c : Config)
    → in_range (use_threads n) ≡ true
    → set_threads (to_string n) c ≡ configured (applied (use_threads n) c)
unfolding set_threads in_range to_size
set_threads-to_string n c h =
    let some_thread : (n == 0) ≡ false = ground (arith, h) in
    rw (stoi-to_string n (ground (arith, h)), some_thread) refl

set_timeout-to_string :
    (n : ℕ) (c : Config)
    → in_range (use_timeout n) ≡ true
    → set_timeout (to_string n) c ≡ configured (applied (use_timeout n) c)
unfolding set_timeout in_range is_positive
set_timeout-to_string n c h =
    let positive : ltb 0 n ≡ true = ground (arith, h) in
    rw (stoi-to_string n (ground (arith, h)), positive) refl

-- Flags.
flag_on :
    (i : ℕ) (c : Config) (long : Bool) (rest : List Bytes)
    → parse_arguments i c (word long (codes "-k") (codes "--keep-alive") ∷ rest)
      ≡ parse_arguments (i + 1) (record c { keep_alive_enabled = true }) rest
unfolding parse_arguments argument_kind equal take_argument last_argument
flag_on i c true [] = refl
flag_on i c true (v ∷ rest) = refl
flag_on i c false [] = refl
flag_on i c false (v ∷ rest) = refl

flag_off :
    (i : ℕ) (c : Config) (rest : List Bytes)
    → parse_arguments i c (codes "--no-keep-alive" ∷ rest)
      ≡ parse_arguments (i + 1) (record c { keep_alive_enabled = false }) rest
unfolding parse_arguments argument_kind equal take_argument last_argument
flag_off i c [] = refl
flag_off i c (v ∷ rest) = refl

-- Options with a number.
port_option :
    (i : ℕ) (c : Config) (long : Bool) (value : Bytes) (rest : List Bytes)
    → parse_arguments i c (word long (codes "-p") (codes "--port") ∷ value ∷ rest)
      ≡ next (set_port value c) (λ c'. parse_arguments (i + 2) c' rest)
unfolding parse_arguments argument_kind equal take_argument last_argument
port_option i c true value rest = refl
port_option i c false value rest = refl

threads_option :
    (i : ℕ) (c : Config) (long : Bool) (value : Bytes) (rest : List Bytes)
    → parse_arguments i c (word long (codes "-t") (codes "--threads") ∷ value ∷ rest)
      ≡ next (set_threads value c) (λ c'. parse_arguments (i + 2) c' rest)
unfolding parse_arguments argument_kind equal take_argument last_argument
threads_option i c true value rest = refl
threads_option i c false value rest = refl

timeout_option :
    (i : ℕ) (c : Config) (long : Bool) (value : Bytes) (rest : List Bytes)
    → parse_arguments i c (word long (codes "-T") (codes "--timeout") ∷ value ∷ rest)
      ≡ next (set_timeout value c) (λ c'. parse_arguments (i + 2) c' rest)
unfolding parse_arguments argument_kind equal take_argument last_argument
timeout_option i c true value rest = refl
timeout_option i c false value rest = refl

then_rest :
    (i : ℕ) (p : Outcome) (c : Config) (rest : List Bytes)
    → p ≡ configured c
    → next p (λ c'. parse_arguments i c' rest) ≡ parse_arguments i c rest
then_rest i p c rest e = ap (λ q. next q (λ c'. parse_arguments i c' rest)) e

-- A command line that is printed from any options, with numbers in range, is taken: `main` goes on with
-- what the options say, the later ones over the earlier ones.
pub parse_arguments-command_line :
    (i : ℕ) (c : Config) (ss : List (Bool × Setting))
    → all_in_range ss ≡ true
    → parse_arguments i c (command_line ss) ≡ configured (all_applied ss c)
unfolding command_line all_in_range all_applied parse_arguments argument_kind equal take_argument
parse_arguments-command_line i c [] h = refl
parse_arguments-command_line i c ((long, use_port n) ∷ ss) h =
    let (one, more) : (in_range (use_port n) ≡ true) × (all_in_range ss ≡ true) =
      ground (arith, h) in
    let c' = applied (use_port n) c in
    port_option i c long (to_string n) (command_line ss)
    ∙ (then_rest (i + 2) (set_port (to_string n) c) c' (command_line ss)
          (set_port-to_string n c one)
        ∙ parse_arguments-command_line (i + 2) c' ss more)
parse_arguments-command_line i c ((long, use_threads n) ∷ ss) h =
    let (one, more) : (in_range (use_threads n) ≡ true) × (all_in_range ss ≡ true) =
      ground (arith, h) in
    let c' = applied (use_threads n) c in
    threads_option i c long (to_string n) (command_line ss)
    ∙ (then_rest (i + 2) (set_threads (to_string n) c) c' (command_line ss)
          (set_threads-to_string n c one)
        ∙ parse_arguments-command_line (i + 2) c' ss more)
parse_arguments-command_line i c ((long, use_timeout n) ∷ ss) h =
    let (one, more) : (in_range (use_timeout n) ≡ true) × (all_in_range ss ≡ true) =
      ground (arith, h) in
    let c' = applied (use_timeout n) c in
    timeout_option i c long (to_string n) (command_line ss)
    ∙ (then_rest (i + 2) (set_timeout (to_string n) c) c' (command_line ss)
          (set_timeout-to_string n c one)
        ∙ parse_arguments-command_line (i + 2) c' ss more)
parse_arguments-command_line i c ((true, use_docroot path) ∷ ss) h =
    parse_arguments-command_line (i + 2) (applied (use_docroot path) c) ss h
parse_arguments-command_line i c ((false, use_docroot path) ∷ ss) h =
    parse_arguments-command_line (i + 2) (applied (use_docroot path) c) ss h
parse_arguments-command_line i c ((long, use_keep_alive true) ∷ ss) h =
    flag_on i c long (command_line ss)
    ∙ parse_arguments-command_line (i + 1) (applied (use_keep_alive true) c) ss h
parse_arguments-command_line i c ((long, use_keep_alive false) ∷ ss) h =
    flag_off i c (command_line ss)
    ∙ parse_arguments-command_line (i + 1) (applied (use_keep_alive false) c) ss h
