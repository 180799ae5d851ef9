-- ===== src/Main/Tests.antt =====
-- The theorems on the command line at concrete inputs.
use web_server_http.Common.{Bool, true, false, List, [], ◌∷◌, ◌≡◌, refl, some, codes, equal}
use web_server_http.Main.{
  configured, argument_kind, take_argument, last_argument, default_config, parse_arguments, main,
  status, after_parsing, run_server, exit_of, configured_server,
}
use web_server_http.Main.Accepted.{Checked, is_option, parse_arguments-Checked}
use web_server_http.Main.Exits.{Quits, main-Quits}
use web_server_http.Main.Options.{
  Setting, use_port, use_threads, use_docroot, use_keep_alive, command_line, in_range, all_in_range,
  all_applied, parse_arguments-command_line,
}
use web_server_http.Server.Accept.{
  SocketCalls, select_failed, initialize, start, accept_loop, accept_round, met, after_loop,
  finish_start,
}
use web_server_http.Server.State.{enable_http2}
use web_server_http.ThreadPool.{new_pool}

abbrev settings : List (Bool × Setting)
settings =
    (true, use_port 8081)
    ∷ (false, use_threads 8)
    ∷ (true, use_keep_alive false)
    ∷ (false, use_docroot (codes "-p"))
    ∷ (false, use_port 8082)
    ∷ []

parse_arguments-command_line_example :
    parse_arguments 1 default_config (command_line settings)
    ≡ configured (all_applied settings default_config)
unfolding all_in_range in_range
parse_arguments-command_line_example = parse_arguments-command_line 1 default_config settings refl

-- A document root without an option, in the second place.
positional_docroot :
    parse_arguments 1 default_config (codes "-k" ∷ codes "./public" ∷ [])
    ≡ configured (record default_config { doc_root = codes "./public" })
unfolding parse_arguments argument_kind equal take_argument last_argument
positional_docroot = refl

parse_arguments-Checked_example : Checked (record default_config { doc_root = codes "./public" })
unfolding is_option argument_kind equal
parse_arguments-Checked_example =
    parse_arguments-Checked (codes "-k") (codes "./public" ∷ [])
      (record default_config { doc_root = codes "./public" }) refl positional_docroot

abbrev all_fine : SocketCalls
all_fine = record { socket_made = some 3; reused = true; bound = true; listening = true }

ends_well : main (codes "--no-keep-alive" ∷ []) all_fine true (select_failed ∷ []) ≡ status 0
unfolding main parse_arguments argument_kind equal last_argument after_parsing run_server initialize
    start accept_loop accept_round met after_loop finish_start exit_of configured_server
    enable_http2 new_pool
ends_well = refl

main-Quits_example : Quits (parse_arguments 1 default_config (codes "--no-keep-alive" ∷ []))
main-Quits_example =
    main-Quits (codes "--no-keep-alive" ∷ []) all_fine true (select_failed ∷ []) ends_well
