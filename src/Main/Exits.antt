-- ===== src/Main/Exits.antt =====
-- The status of `main` of src/core/main.cpp.
use web_server_http.Common.{
  Bool, true, false, List, ◌≡◌, ◌≢◌, refl, ◌⊎◌, inl, inr, Bool-cases, Bytes, arith,
}
use web_server_http.Main.{
  Config, Outcome, configured, asked_help, refused, uncaught, parse_arguments, default_config, main,
  run_server, after_parsing, status, exit_of, configured_server, listener,
}
use web_server_http.Server.Accept.{
  SocketCalls, AcceptEvent, StartEnd, start_returns, start_runs, exits, terminates, start,
  initialize,
}
use web_server_http.Server.Accept.Ending.{start-never_returns}
use web_server_http.Server.State.{enable_keep_alive, enable_http2}

only_returns : (end : StartEnd) → exit_of end ≡ status 0 → end ≡ start_returns
unfolding exit_of
only_returns start_returns e = refl
only_returns start_runs e = absurd (ground (arith, e))
only_returns exits e = absurd (ground (arith, e))
only_returns terminates e = absurd (ground (arith, e))

-- Whether the help was asked for, or the configuration has keep-alive off.
abbrev pub Quits : Outcome → Type 0
Quits p = (p ≡ asked_help) ⊎ ((c : Config) × (p ≡ configured c) × (c.keep_alive_enabled ≡ false))

keeps_alive :
    (c : Config) → c.keep_alive_enabled ≡ true → (configured_server c).keep_alive_enabled ≡ true
unfolding configured_server enable_keep_alive enable_http2
keeps_alive c q = rw (q) refl

one_not_zero : status 1 ≢ status 0
one_not_zero e = absurd (ground (arith, e))

run_server-Quits :
    (c : Config) (calls : SocketCalls) (in_time : Bool) (es : List AcceptEvent)
    → run_server c calls in_time es ≡ status 0
    → c.keep_alive_enabled ≡ false
unfolding run_server
run_server-Quits c calls in_time es e = elim (Bool-cases c.keep_alive_enabled) [
  | inr q ↦ q
  | inl q ↦ absurd (elim (Bool-cases (initialize calls).success) [
    | inl ok ↦
        start-never_returns in_time (listener c) es (keeps_alive c q)
          (only_returns (start in_time (listener c) es).1 (rw (ok) at e))
    | inr bad ↦ one_not_zero (rw (bad) at e)
  ])
]

main-Quits_from :
    (p : Outcome) (calls : SocketCalls) (in_time : Bool) (es : List AcceptEvent)
    → after_parsing p calls in_time es ≡ status 0
    → Quits p
unfolding after_parsing
main-Quits_from asked_help calls in_time es e = inl refl
main-Quits_from refused calls in_time es e = absurd (ground (arith, e))
main-Quits_from (uncaught x) calls in_time es e = absurd (ground (arith, e))
main-Quits_from (configured c) calls in_time es e =
    inr (c, refl, run_server-Quits c calls in_time es e)

-- `main` returns 0, the status for success, only if the help was asked for or keep-alive was switched
-- off: with keep-alive on, which is the default, no way of stopping the server leads there.
pub main-Quits :
    (args : List Bytes) (calls : SocketCalls) (in_time : Bool) (es : List AcceptEvent)
    → main args calls in_time es ≡ status 0
    → Quits (parse_arguments 1 default_config args)
unfolding main
main-Quits args calls in_time es e =
    main-Quits_from (parse_arguments 1 default_config args) calls in_time es e
