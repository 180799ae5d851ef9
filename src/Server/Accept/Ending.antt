-- ===== src/Server/Accept/Ending.antt =====
-- How `start` of src/core/server.cpp ends.
use web_server_http.Common.{Bool, true, List, ◌≡◌, subst, ◌≢◌, arith}
use web_server_http.Server.Accept.{
  Listener, AcceptEvent, start, accept_loop, Going, going_on, left, process_ended, start_returns,
  after_loop, finish_start,
}

no_return :
    (in_time : Bool) (l : Listener) (going : Going)
    → (after_loop true in_time l going).1 ≢ start_returns
unfolding after_loop finish_start
no_return in_time l going_on r = absurd (ground (arith, r))
no_return in_time l process_ended r = absurd (ground (arith, r))
no_return in_time l left r = absurd (ground (arith, r))

-- With keep-alive enabled, `start` never returns, whatever the system calls return: it is in its loop,
-- the process has ended by `_exit`, or it ends by `std::terminate`.
pub start-never_returns :
    (in_time : Bool) (l : Listener) (es : List AcceptEvent)
    → l.server.keep_alive_enabled ≡ true
    → (start in_time l es).1 ≢ start_returns
unfolding start
start-never_returns in_time l es k r =
    let out = accept_loop l es in
    no_return in_time out.listener out.going
      (subst (λ b. (after_loop b in_time out.listener out.going).1 ≡ start_returns) k r)
