-- ===== src/ThreadPool.antt =====
-- include/core/thread_pool.h, src/core/thread_pool.cpp and include/core/shutdown_coordinator.h: a task
-- queue, its workers and the shutdown flags, as a machine whose events may come in any order. A step is
-- what a thread does under the queue's lock, or the run of a task.
pub mod Queue
pub mod Stopping
pub mod Leaving
pub mod Counter
mod Tests
use web_server_http.Common.{
  ℕ, zero, suc, ◌+◌, Bool, true, false, List, [], ◌∷◌, ◌++◌, ◌&&◌, ◌||◌, not, Option, some,
  if◌then◌else◌, length, get_elem?,
}
use web_server_http.Common.Int.{ℤ, pos, increment, decrement, is_zero}

-- class ShutdownCoordinator, with the thread registry as a count.
pub record Coordinator : Type 0 where
  pub shutdown_requested : Bool
  pub active_threads : ℤ
  pub registered_threads : ℕ

abbrev pub new_coordinator : Coordinator
new_coordinator = record {
  shutdown_requested = false;
  active_threads = pos 0;
  registered_threads = 0;
}

unfoldable pub request_shutdown : Coordinator → Coordinator
request_shutdown c = record c { shutdown_requested = true }

unfoldable pub register_thread : Coordinator → Coordinator
register_thread c = record c {
  registered_threads = c.registered_threads + 1;
  active_threads = increment c.active_threads;
}

unfoldable pub thread_exiting : Coordinator → Coordinator
thread_exiting c = record c { active_threads = decrement c.active_threads }

-- The condition that `wait_for_all_threads` waits for.
unfoldable pub all_threads_stopped : Coordinator → Bool
all_threads_stopped c = is_zero c.active_threads

unfoldable pub force_shutdown_threads : Coordinator → Coordinator
force_shutdown_threads c = record c { registered_threads = 0; active_threads = pos 0 }

-- A worker waits for a task, runs one, or has left its loop.
pub data Worker : Type 0 where
  idle exited : Worker
  busy : ℕ → Worker

pub record ThreadPool : Type 0 where
  pub tasks : List ℕ
  pub workers : List Worker
  pub stop_flag : Bool
  pub coordinator : Coordinator

unfoldable pub repeat_worker : ℕ → List Worker
repeat_worker zero = []
repeat_worker (suc n) = idle ∷ repeat_worker n

unfoldable pub new_pool : ℕ → ThreadPool
unfolding repeat_worker
new_pool num_threads = record {
  tasks = [];
  workers = repeat_worker num_threads;
  stop_flag = false;
  coordinator = new_coordinator;
}

-- What `stop_flag.load() || coordinator.is_shutdown_requested()` reads.
abbrev pub stopping : ThreadPool → Bool
stopping p = p.stop_flag || p.coordinator.shutdown_requested

-- `enqueue`; `locked` says whether `try_to_lock` succeeds.
unfoldable pub enqueue : Bool → ℕ → ThreadPool → ThreadPool
enqueue locked task p =
    if p.stop_flag
    then p
    else if not locked && p.coordinator.shutdown_requested
    then p
    else record p { tasks = p.tasks ++ task ∷ [] }

unfoldable pub set_worker : ℕ → Worker → List Worker → List Worker
set_worker i w [] = []
set_worker zero w (x ∷ xs) = w ∷ xs
set_worker (suc i) w (x ∷ xs) = x ∷ set_worker i w xs

-- A worker leaves its loop.
unfoldable pub leave : ℕ → ThreadPool → ThreadPool
unfolding set_worker thread_exiting
leave i p = record p {
  workers = set_worker i exited p.workers;
  coordinator = thread_exiting p.coordinator;
}

-- A worker's round up to the release of the lock: it leaves, takes the first task, or waits on.
unfoldable pub fetch : ℕ → ThreadPool → ThreadPool
unfolding leave set_worker
fetch i p = if stopping p then leave i p else elim p.tasks [
  | [] ↦ p
  | task ∷ rest ↦ record p { tasks = rest; workers = set_worker i (busy task) p.workers }
]

-- The task of a worker ends, normally or by an exception that the worker catches.
unfoldable pub complete : ℕ → ThreadPool → ThreadPool
unfolding leave set_worker
complete i p =
    if p.coordinator.shutdown_requested
    then leave i p
    else record p { workers = set_worker i idle p.workers }

-- `stop` up to the joins.
unfoldable pub begin_stop : ThreadPool → ThreadPool
unfolding request_shutdown
begin_stop p = record p { stop_flag = true; coordinator = request_shutdown p.coordinator }

-- The end of `stop`: the queue is cleared if the lock is had.
unfoldable pub clear_tasks : Bool → ThreadPool → ThreadPool
clear_tasks locked p = if locked then record p { tasks = [] } else p

unfoldable pub get_queue_size : Bool → ThreadPool → ℕ
get_queue_size locked p = if locked then length p.tasks else 0

-- What can happen next. `works i` is a step of worker `i`, by what it is doing. `exits_elsewhere` is a
-- thread outside of the pool that reports to the shared coordinator that it exits, and `forces` the
-- forced end of a wait for the threads.
pub data Event : Type 0 where
  submits : Bool → ℕ → Event
  works : ℕ → Event
  stops shutdown_elsewhere exits_elsewhere forces : Event
  clears : Bool → Event

unfoldable pub work : Option Worker → ℕ → ThreadPool → ThreadPool
unfolding fetch complete
work (some idle) i p = fetch i p
work (some (busy t)) i p = complete i p
work _ i p = p

unfoldable pub step : ThreadPool → Event → ThreadPool
unfolding enqueue work begin_stop clear_tasks thread_exiting force_shutdown_threads
step p (submits locked task) = enqueue locked task p
step p (works i) = work (get_elem? p.workers i) i p
step p stops = begin_stop p
step p shutdown_elsewhere = record p { coordinator = request_shutdown p.coordinator }
step p exits_elsewhere = record p { coordinator = thread_exiting p.coordinator }
step p forces = record p { coordinator = force_shutdown_threads p.coordinator }
step p (clears locked) = clear_tasks locked p

unfoldable pub run : ThreadPool → List Event → ThreadPool
unfolding step
run p [] = p
run p (e ∷ es) = run (step p e) es
