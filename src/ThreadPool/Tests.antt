-- ===== src/ThreadPool/Tests.antt =====
-- The theorems on the pool at concrete inputs.
use web_server_http.Common.{◌+◌, true, false, List, [], ◌∷◌, ◌++◌, ◌≡◌, ◌==◌, refl}
use web_server_http.ThreadPool.{
  ThreadPool, new_pool, Event, submits, works, stops, exits_elsewhere, run, begin_stop,
  all_threads_stopped,
}
use web_server_http.ThreadPool.Counter.{
  exited_count, exited_elsewhere, unforced, all_threads_stopped_iff,
}
use web_server_http.ThreadPool.Queue.{uncleared, accepted, started, run_fifo}
use web_server_http.ThreadPool.Stopping.{remaining, begin_stop_quiet}

-- Two tasks, of which one is started before the stop.
abbrev course : List Event
course = submits true 7 ∷ submits false 8 ∷ works 0 ∷ stops ∷ works 1 ∷ works 0 ∷ []

abbrev pool : ThreadPool
unfolding new_pool
pool = new_pool 2

run_fifo_example :
    pool.tasks ++ accepted pool course ≡ started pool course ++ (run pool course).tasks
unfolding uncleared
run_fifo_example = run_fifo pool course refl

begin_stop_quiet_example :
    (started (begin_stop pool) course ≡ [])
    × ((run (begin_stop pool) course).tasks ≡ remaining course pool.tasks)
begin_stop_quiet_example = begin_stop_quiet pool course

all_threads_stopped_iff_example :
    let after = run (new_pool 2) (exits_elsewhere ∷ course) in
    all_threads_stopped after.coordinator
    ≡ (exited_count after.workers + exited_elsewhere (exits_elsewhere ∷ course) == 0)
unfolding unforced
all_threads_stopped_iff_example = all_threads_stopped_iff 2 (exits_elsewhere ∷ course) refl
