-- ===== src/ThreadPool/Queue.antt =====
-- The task queue of src/core/thread_pool.cpp over every order of events.
use web_server_http.Common.{
  ℕ, zero, suc, Bool, true, false, List, [], ◌∷◌, ◌++◌, ◌≡◌, refl, sym, ap, ◌∙◌, ◌&&◌, ◌||◌, not,
  get_elem?, Option, none, some, List-cases, Bool-cases, inl, inr, if◌then◌else◌, append-nil,
  append_assoc, arith,
}
use web_server_http.ThreadPool.{
  Worker, idle, exited, busy, ThreadPool, stopping, enqueue, set_worker, leave, fetch, complete,
  begin_stop, clear_tasks, work, step, run, Event, submits, works, stops, shutdown_elsewhere,
  exits_elsewhere, forces, clears,
}

pub get_elem?-set_worker :
    (i : ℕ) (v w : Worker) (ws : List Worker)
    → get_elem? ws i ≡ some v
    → get_elem? (set_worker i w ws) i ≡ some w
unfolding set_worker
get_elem?-set_worker i v w [] h = absurd cc
get_elem?-set_worker zero v w (x ∷ ws) h = refl
get_elem?-set_worker (suc i) v w (x ∷ ws) h = get_elem?-set_worker i v w ws h

-- The task that a worker turned to, seen from what it did before and does after a step.
abbrev pub turned_to : Option Worker → Option Worker → List ℕ
turned_to (some idle) (some (busy t)) = t ∷ []
turned_to _ _ = []

-- The task that a step starts, and the task that it lets into the queue.
unfoldable pub started_by : ThreadPool → Event → List ℕ
started_by p (works i) = turned_to (get_elem? p.workers i) (get_elem? (step p (works i)).workers i)
started_by p _ = []

unfoldable pub accepted_by : ThreadPool → Event → List ℕ
accepted_by p (submits locked t) =
    if p.stop_flag || (p.coordinator.shutdown_requested && not locked) then [] else t ∷ []
accepted_by p _ = []

unfoldable pub started : ThreadPool → List Event → List ℕ
unfolding started_by
started p [] = []
started p (e ∷ es) = started_by p e ++ started (step p e) es

unfoldable pub accepted : ThreadPool → List Event → List ℕ
unfolding accepted_by
accepted p [] = []
accepted p (e ∷ es) = accepted_by p e ++ accepted (step p e) es

-- No step of `stop` has cleared the queue.
unfoldable pub uncleared : List Event → Bool
uncleared [] = true
uncleared (clears true ∷ es) = false
uncleared (e ∷ es) = uncleared es

fetch_queue :
    (i : ℕ) (p : ThreadPool)
    → get_elem? p.workers i ≡ some idle
    → p.tasks ≡ turned_to (some idle) (get_elem? (fetch i p).workers i) ++ (fetch i p).tasks
unfolding fetch leave
fetch_queue i p h = elim (Bool-cases (stopping p)) [
  | inl s ↦ ground (arith, s, get_elem?-set_worker i idle exited p.workers h)
  | inr s ↦ elim (List-cases p.tasks) [
    | inl e ↦ ground (arith, s, e, h)
    | inr (t, r, e) ↦ ground (arith, s, e, get_elem?-set_worker i idle (busy t) p.workers h)
  ]
]

complete_queue : (i : ℕ) (p : ThreadPool) → (complete i p).tasks ≡ p.tasks
unfolding complete leave
complete_queue i p = ground arith

works_queue :
    (i : ℕ) (p : ThreadPool) (w : Option Worker)
    → get_elem? p.workers i ≡ w
    → p.tasks ≡ turned_to w (get_elem? (work w i p).workers i) ++ (work w i p).tasks
unfolding work
works_queue i p none h = refl
works_queue i p (some idle) h = fetch_queue i p h
works_queue i p (some exited) h = refl
works_queue i p (some (busy t)) h = sym (complete_queue i p)

step_queue :
    (p : ThreadPool) (e : Event)
    → uncleared (e ∷ []) ≡ true
    → p.tasks ++ accepted_by p e ≡ started_by p e ++ (step p e).tasks
unfolding accepted_by started_by step uncleared
step_queue p (submits locked t) h = unfold enqueue in ground (arith, append-nil p.tasks)
step_queue p (works i) h = append-nil p.tasks ∙ works_queue i p (get_elem? p.workers i) refl
step_queue p stops h = unfold begin_stop in append-nil p.tasks
step_queue p shutdown_elsewhere h = append-nil p.tasks
step_queue p exits_elsewhere h = append-nil p.tasks
step_queue p forces h = append-nil p.tasks
step_queue p (clears true) h = absurd cc
step_queue p (clears false) h = unfold clear_tasks in append-nil p.tasks

uncleared_first :
    (e : Event) (es : List Event)
    → uncleared (e ∷ es) ≡ true
    → (uncleared (e ∷ []) ≡ true) × (uncleared es ≡ true)
unfolding uncleared
uncleared_first (submits locked t) es h = (refl, h)
uncleared_first (works i) es h = (refl, h)
uncleared_first stops es h = (refl, h)
uncleared_first shutdown_elsewhere es h = (refl, h)
uncleared_first exits_elsewhere es h = (refl, h)
uncleared_first forces es h = (refl, h)
uncleared_first (clears true) es h = absurd cc
uncleared_first (clears false) es h = (refl, h)

-- Over any course of submissions, worker steps and stop requests in which the queue is not cleared,
-- the tasks that were waiting and those let in are, in this order, the tasks that were started and
-- those still waiting: tasks start first in, first out, and none is lost or started twice.
pub run_fifo :
    (p : ThreadPool) (es : List Event)
    → uncleared es ≡ true
    → p.tasks ++ accepted p es ≡ started p es ++ (run p es).tasks
unfolding accepted started run
run_fifo p [] h = append-nil p.tasks
run_fifo p (e ∷ es) h =
    let (one, rest) = uncleared_first e es h in
    let p' = step p e in
    sym (append_assoc p.tasks (accepted_by p e) (accepted p' es))
    ∙ (ap (λ t. t ++ accepted p' es) (step_queue p e one)
        ∙ (append_assoc (started_by p e) p'.tasks (accepted p' es)
            ∙ (ap (◌++◌ (started_by p e)) (run_fifo p' es rest)
                ∙ sym (append_assoc (started_by p e) (started p' es) (run p' es).tasks))))
