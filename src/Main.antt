-- ===== src/Main.antt =====
-- src/core/main.cpp: the command line and `main`. An `int` is a sign and a magnitude, as `stoi` gives
-- it. `print_usage`, `print_server_info` and the thread of `monitor_server_stats` only print.
pub mod Monitor
pub mod Options
pub mod Accepted
pub mod Exits
mod Tests
use web_server_http.Common.{
  ℕ, ◌+◌, ◌-◌, ◌%◌, ◌^◌, Bool, true, false, List, [], ◌∷◌, ◌||◌, ◌&&◌, not, Option, none, some, ltb,
  leb, ◌==◌, if◌then◌else◌, Bytes, codes, equal, Exception, Try, returned, threw,
}
use web_server_http.Common.Numbers.{stoi}
use web_server_http.Server.Accept.{
  SocketCalls, initialize, AcceptEvent, Listener, no_signals, StartEnd, start_returns, start_runs,
  exits, terminates, start,
}
use web_server_http.Server.State.{Server, new_server, enable_keep_alive, enable_http2}
use web_server_http.ThreadPool.{new_pool}

-- The variables of `main`.
pub record Config : Type 0 where
  pub port : Bool × ℕ
  pub doc_root : Bytes
  pub thread_count : ℕ
  pub keep_alive_enabled : Bool
  pub keep_alive_timeout : Bool × ℕ

abbrev pub default_config : Config
default_config = record {
  port = (false, 8080);
  doc_root = codes "./www";
  thread_count = 4;
  keep_alive_enabled = true;
  keep_alive_timeout = (false, 5);
}

-- `main` goes on, prints the help and returns 0, returns 1, or an exception leaves it.
pub data Outcome : Type 0 where
  configured : Config → Outcome
  asked_help refused : Outcome
  uncaught : Exception → Outcome

-- What an argument is.
pub data ArgumentKind : Type 0 where
  help port docroot threads keep_alive no_keep_alive timeout positional : ArgumentKind

unfoldable pub argument_kind : Bytes → ArgumentKind
unfolding equal
argument_kind arg =
    if equal arg (codes "-h") || equal arg (codes "--help")
    then help
    else if equal arg (codes "-p") || equal arg (codes "--port")
    then port
    else if equal arg (codes "-d") || equal arg (codes "--docroot")
    then docroot
    else if equal arg (codes "-t") || equal arg (codes "--threads")
    then threads
    else if equal arg (codes "-k") || equal arg (codes "--keep-alive")
    then keep_alive
    else if equal arg (codes "--no-keep-alive")
    then no_keep_alive
    else if equal arg (codes "-T") || equal arg (codes "--timeout")
    then timeout
    else positional

-- `x > 0` for an `int`.
unfoldable pub is_positive : Bool × ℕ → Bool
is_positive (negative, n) = not negative && ltb 0 n

-- An `int` as a `size_t`: negative numbers wrap around.
unfoldable pub to_size : Bool × ℕ → ℕ
to_size (true, n) = (2 ^ 64 - n) % 2 ^ 64
to_size (false, n) = n

-- What is done with a number read by `stoi`.
abbrev pub with_number : Try (Bool × ℕ) → (Bool × ℕ → Outcome) → Outcome
with_number (threw e) f = uncaught e
with_number (returned x) f = f x

unfoldable pub set_port : Bytes → Config → Outcome
unfolding stoi is_positive
set_port value c =
    with_number (stoi 10 value)
      (λ x. if is_positive x && leb x.1 65535 then configured (record c { port = x }) else refused)

unfoldable pub set_threads : Bytes → Config → Outcome
unfolding stoi to_size
set_threads value c =
    with_number (stoi 10 value)
      (λ x. if to_size x == 0 then refused else configured (record c { thread_count = to_size x }))

unfoldable pub set_timeout : Bytes → Config → Outcome
unfolding stoi is_positive
set_timeout value c =
    with_number (stoi 10 value)
      (λ x. if is_positive x then configured (record c { keep_alive_timeout = x }) else refused)

-- The older positional arguments, which are not checked.
unfoldable pub set_positional : ℕ → Bytes → Config → Outcome
unfolding stoi to_size
set_positional i arg c =
    if i == 1
    then with_number (stoi 10 arg) (λ x. configured (record c { port = x }))
    else if i == 2
    then configured (record c { doc_root = arg })
    else if i == 3
    then with_number (stoi 10 arg) (λ x. configured (record c { thread_count = to_size x }))
    else refused

-- Going on after an argument.
abbrev pub next : Outcome → (Config → Outcome) → Outcome
next (configured c) f = f c
next asked_help f = asked_help
next refused f = refused
next (uncaught e) f = uncaught e

-- The last argument: there is no value behind it.
unfoldable pub last_argument : ArgumentKind → ℕ → Bytes → Config → Outcome
unfolding set_positional
last_argument help i arg c = asked_help
last_argument keep_alive i arg c = configured (record c { keep_alive_enabled = true })
last_argument no_keep_alive i arg c = configured (record c { keep_alive_enabled = false })
last_argument positional i arg c = set_positional i arg c
last_argument _ i arg c = refused

-- An argument with another behind it, and how the loop goes on behind the one or behind both.
unfoldable pub take_argument :
    ArgumentKind → ℕ → Bytes → Bytes → Config → (Config → Outcome) → (Config → Outcome) → Outcome
unfolding set_port set_threads set_timeout set_positional
take_argument help i arg value c one both = asked_help
take_argument keep_alive i arg value c one both = one (record c { keep_alive_enabled = true })
take_argument no_keep_alive i arg value c one both = one (record c { keep_alive_enabled = false })
take_argument positional i arg value c one both = next (set_positional i arg c) one
take_argument port i arg value c one both = next (set_port value c) both
take_argument docroot i arg value c one both = both (record c { doc_root = value })
take_argument threads i arg value c one both = next (set_threads value c) both
take_argument timeout i arg value c one both = next (set_timeout value c) both

-- The loop from the argument `i` on.
unfoldable pub parse_arguments : ℕ → Config → List Bytes → Outcome
unfolding argument_kind last_argument take_argument
parse_arguments i c [] = configured c
parse_arguments i c (arg ∷ []) = last_argument (argument_kind arg) i arg c
parse_arguments i c (arg ∷ value ∷ rest) =
    take_argument (argument_kind arg) i arg value c
      (λ c'. parse_arguments (i + 1) c' (value ∷ rest)) (λ c'. parse_arguments (i + 2) c' rest)

-- The server that `main` makes. The timeout is positive: only `set_timeout` writes it.
unfoldable pub configured_server : Config → Server
unfolding enable_keep_alive enable_http2
configured_server c = enable_http2 true (
    if c.keep_alive_enabled
    then enable_keep_alive true c.keep_alive_timeout.1 new_server
    else new_server)

-- How the process ends, if it does: with a status, or by an exception that nothing catches or a call
-- of `std::terminate`.
pub data Exit : Type 0 where
  status : ℕ → Exit
  aborted running : Exit

unfoldable pub exit_of : StartEnd → Exit
exit_of start_returns = status 0
exit_of start_runs = running
exit_of exits = status 1
exit_of terminates = aborted

abbrev pub listener : Config → Listener
listener c = record {
  server = configured_server c;
  pool = new_pool c.thread_count;
  signals = no_signals;
}

-- `main` from the constructor of the server on, where every thread of the pool can be started.
unfoldable pub run_server : Config → SocketCalls → Bool → List AcceptEvent → Exit
unfolding configured_server initialize start exit_of new_pool
run_server c calls in_time es =
    if not (initialize calls).success then status 1 else exit_of (start in_time (listener c) es).1

unfoldable pub after_parsing : Outcome → SocketCalls → Bool → List AcceptEvent → Exit
unfolding run_server
after_parsing asked_help calls in_time es = status 0
after_parsing refused calls in_time es = status 1
after_parsing (uncaught e) calls in_time es = aborted
after_parsing (configured c) calls in_time es = run_server c calls in_time es

unfoldable pub main : List Bytes → SocketCalls → Bool → List AcceptEvent → Exit
unfolding parse_arguments after_parsing
main args calls in_time es = after_parsing (parse_arguments 1 default_config args) calls in_time es
