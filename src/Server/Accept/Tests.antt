-- ===== src/Server/Accept/Tests.antt =====
-- The theorems on the start of the server at concrete inputs.
use web_server_http.Common.{true, false, List, [], ◌∷◌, ◌++◌, ◌≡◌, refl}
use web_server_http.Server.Accept.{
  Listener, AcceptEvent, interrupted, select_timeout, accepted, accept_loop, no_signals,
}
use web_server_http.Server.Accept.Conserved.{accepted_sockets, accept_loop-accepted_sockets}
use web_server_http.Server.Accept.Serving.{Serves, quiet, accept_loop-Serves}
use web_server_http.Server.State.{new_server}
use web_server_http.ThreadPool.{new_pool}

abbrev fresh : Listener
unfolding new_pool
fresh = record {
  server = record new_server { keep_alive_enabled = true };
  pool = new_pool 2;
  signals = no_signals;
}

-- A connection, a signal, another connection.
abbrev course : List AcceptEvent
course = accepted 4 10 false true ∷ interrupted ∷ select_timeout ∷ accepted 5 12 false true ∷ []

-- The shutdown is requested while a third is accepted.
abbrev longer : List AcceptEvent
longer = accepted 4 10 false true ∷ accepted 5 12 true true ∷ accepted 6 13 false true ∷ []

accept_loop-accepted_sockets_example :
    let out = accept_loop fresh longer in
    out.listener.server.sockets ++ (out.closed_sockets ++ accepted_sockets out.unmet)
    ≡ fresh.server.sockets ++ accepted_sockets longer
accept_loop-accepted_sockets_example = accept_loop-accepted_sockets fresh longer

accept_loop-Serves_example : Serves [] course (accept_loop fresh course)
unfolding quiet fresh
accept_loop-Serves_example = accept_loop-Serves fresh course (refl, refl) refl
