-- ===== src/Server/Accept.antt =====
-- `initialize` and `start` of src/core/server.cpp, and `signal_handler` of src/core/main.cpp. What the
-- system calls return is given as arguments and events.
pub mod Conserved
pub mod Serving
pub mod Ending
mod Tests
use web_server_http.Common.{
  ℕ, Bool, true, false, List, [], ◌∷◌, ◌++◌, ◌&&◌, ◌||◌, not, Option, none, some, if◌then◌else◌,
}
use web_server_http.Common.Int.{ℤ}
use web_server_http.Server.State.{Server, register_socket, add_connection_safe}
use web_server_http.ThreadPool.{
  ThreadPool, Coordinator, enqueue, request_shutdown, all_threads_stopped, force_shutdown_threads,
}

-- The results of `socket`, `setsockopt`, `bind` and `listen`.
pub record SocketCalls : Type 0 where
  pub socket_made : Option ℕ
  pub reused : Bool
  pub bound : Bool
  pub listening : Bool

-- `server_fd`, `none` for -1; the descriptors closed; and the result.
pub record Opened : Type 0 where
  pub server_fd : Option ℕ
  pub closed_fds : List ℕ
  pub success : Bool

unfoldable pub initialize : SocketCalls → Opened
initialize c = elim c.socket_made [
  | none ↦ record { server_fd = none; closed_fds = []; success = false }
  | some fd ↦
      let gave_up : Opened = record { server_fd = none; closed_fds = fd ∷ []; success = false } in
      if not c.reused
      then gave_up
      else if not c.bound
      then gave_up
      else if not c.listening
      then gave_up
      else record { server_fd = some fd; closed_fds = []; success = true }
]

-- The flags that `signal_handler` sets. It ends the process by `_exit` where the result is `none`.
pub record Signals : Type 0 where
  pub shutdown_in_progress : Bool
  pub g_shutdown_requested : Bool

abbrev pub no_signals : Signals
no_signals = record { shutdown_in_progress = false; g_shutdown_requested = false }

unfoldable pub signal_handler : Signals → Option Signals
signal_handler g =
    if g.shutdown_in_progress
    then none
    else some (record { shutdown_in_progress = true; g_shutdown_requested = true })

-- What the accept loop works on. A task of the pool is the socket that it serves.
pub record Listener : Type 0 where
  pub server : Server
  pub pool : ThreadPool
  pub signals : Signals

-- What a round meets behind the test of the shutdown flag. `interrupted` is a signal during `select`,
-- `by_signal` one during `accept`; `requested` says that another thread requests the shutdown before the flag is read again.
pub data AcceptEvent : Type 0 where
  interrupted select_failed select_timeout not_ready : AcceptEvent
  accept_failed : (by_signal requested : Bool) → AcceptEvent
  accepted : (socket now : ℕ) (requested locked : Bool) → AcceptEvent

-- Whether the loop goes on, is left, or the process has ended.
pub data Going : Type 0 where
  going_on left process_ended : Going

unfoldable pub noticed : Bool → Listener → Listener
unfolding request_shutdown
noticed requested l =
    if requested
    then record l { pool = record l.pool { coordinator = request_shutdown l.pool.coordinator } }
    else l

-- The socket is registered, its time noted, and the task put in the queue.
unfoldable pub admit : ℕ → ℕ → Bool → Listener → Listener
admit socket now locked l =
    let registered = register_socket socket l.server in
    record l {
      server =
          if registered.keep_alive_enabled
          then add_connection_safe now socket registered
          else registered;
      pool = enqueue locked socket l.pool;
    }

-- After a signal handler has run.
unfoldable pub after_signal : Going → Listener → Option Signals → Listener × List ℕ × Going
after_signal next l none = (l, [], process_ended)
after_signal next l (some g) = (record l { signals = g }, [], next)

-- A round of the loop, with the sockets that it closes.
unfoldable pub accept_round : Listener → AcceptEvent → Listener × List ℕ × Going
unfolding noticed after_signal
accept_round l interrupted = after_signal going_on l (signal_handler l.signals)
accept_round l select_failed = (l, [], left)
accept_round l select_timeout = (l, [], going_on)
accept_round l not_ready = (l, [], going_on)
accept_round l (accept_failed true requested) =
    after_signal left (noticed requested l) (signal_handler l.signals)
accept_round l (accept_failed false requested) =
    let l' = noticed requested l in
    (l', [], if l'.pool.coordinator.shutdown_requested then left else going_on)
accept_round l (accepted socket now requested locked) =
    let l' = noticed requested l in
    if l'.pool.coordinator.shutdown_requested
    then (l', socket ∷ [], left)
    else (admit socket now locked l', [], going_on)

-- The loop, with the events that it does not meet. With no event left it is in `select`.
pub record Accepting : Type 0 where
  pub listener : Listener
  pub closed_sockets : List ℕ
  pub unmet : List AcceptEvent
  pub going : Going

abbrev pub at_end : Listener → List ℕ → List AcceptEvent → Going → Accepting
at_end l closed es going = record {
  listener = l;
  closed_sockets = closed;
  unmet = es;
  going = going;
}

-- After a round, with what the later rounds would give.
unfoldable pub met : List AcceptEvent → Listener × List ℕ × Going → Accepting → Accepting
met es (l, closed, going_on) later = record later {
  closed_sockets = closed ++ later.closed_sockets;
}
met es (l, closed, left) later = at_end l closed es left
met es (l, closed, process_ended) later = at_end l closed es process_ended

unfoldable pub accept_loop : Listener → List AcceptEvent → Accepting
unfolding met
accept_loop l [] = at_end l [] [] (if l.pool.coordinator.shutdown_requested then left else going_on)
accept_loop l (e ∷ es) =
    let round = accept_round l e in
    let later = accept_loop round.0 es in
    if l.pool.coordinator.shutdown_requested then at_end l [] (e ∷ es) left else met es round later

-- How `start` ends: it returns, is still in its loop, or the process ends, by a second signal or by
-- `std::terminate`.
pub data StartEnd : Type 0 where
  start_returns start_runs exits terminates : StartEnd

-- The end of `start`. `in_time` says whether the count of threads is zero within five seconds. The
-- thread that is started for connections without use is an object of `start` that is neither joined
-- nor detached: with keep-alive, its destructor calls `std::terminate`.
unfoldable pub finish_start : Bool → Bool → Listener → Listener × StartEnd
unfolding force_shutdown_threads
finish_start cleanup_thread in_time l = (
  (if in_time then l else record l {
    pool = record l.pool { coordinator = force_shutdown_threads l.pool.coordinator };
  }),
  if cleanup_thread then terminates else start_returns,
)

unfoldable pub after_loop : Bool → Bool → Listener → Going → Listener × StartEnd
unfolding finish_start
after_loop cleanup_thread in_time l going_on = (l, start_runs)
after_loop cleanup_thread in_time l process_ended = (l, exits)
after_loop cleanup_thread in_time l left = finish_start cleanup_thread in_time l

unfoldable pub start : Bool → Listener → List AcceptEvent → Listener × StartEnd
unfolding accept_loop after_loop
start in_time l es =
    let out = accept_loop l es in
    after_loop l.server.keep_alive_enabled in_time out.listener out.going
