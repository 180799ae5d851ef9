-- ===== src/ThreadPool/Stopping.antt =====
-- What `stop` of src/core/thread_pool.cpp brings about, over every order of events behind it.
use web_server_http.Common.{
  ℕ, true, false, List, [], ◌∷◌, ◌++◌, ◌≡◌, refl, ap, ap₂, ◌∙◌, get_elem?, Option, none, some,
  Option-cases, inl, inr, arith,
}
use web_server_http.ThreadPool.{
  Worker, idle, exited, busy, ThreadPool, enqueue, leave, fetch, complete, begin_stop,
  request_shutdown, thread_exiting, force_shutdown_threads, clear_tasks, work, step, run, Event,
  submits, works, stops, shutdown_elsewhere, exits_elsewhere, forces, clears,
}
use web_server_http.ThreadPool.Queue.{get_elem?-set_worker, turned_to, started_by, started}

-- A pool on which `stop` was called.
abbrev pub Stopped : ThreadPool → Type 0
Stopped p = (p.stop_flag ≡ true) × (p.coordinator.shutdown_requested ≡ true)

work-Stopped : (w : Option Worker) (i : ℕ) (p : ThreadPool) → Stopped p → Stopped (work w i p)
unfolding work fetch complete leave thread_exiting
work-Stopped none i p h = h
work-Stopped (some exited) i p h = h
work-Stopped (some idle) i p (h, k) = ground (arith, h, k)
work-Stopped (some (busy t)) i p (h, k) = ground (arith, h, k)

pub step-Stopped : (p : ThreadPool) (e : Event) → Stopped p → Stopped (step p e)
unfolding step
step-Stopped p (submits locked t) (h, k) = unfold enqueue in ground (arith, h, k)
step-Stopped p (works i) h = work-Stopped (get_elem? p.workers i) i p h
step-Stopped p stops h = unfold begin_stop request_shutdown in (refl, refl)
step-Stopped p shutdown_elsewhere (h, k) = unfold request_shutdown in (h, refl)
step-Stopped p exits_elsewhere (h, k) = unfold thread_exiting in (h, k)
step-Stopped p forces (h, k) = unfold force_shutdown_threads in (h, k)
step-Stopped p (clears locked) (h, k) = unfold clear_tasks in ground (arith, h, k)

pub begin_stop-Stopped : (p : ThreadPool) → Stopped (begin_stop p)
unfolding begin_stop request_shutdown
begin_stop-Stopped p = (refl, refl)

-- A stopped pool makes a worker leave.
pub work_exits :
    (i : ℕ) (p : ThreadPool) (w : Worker)
    → Stopped p
    → get_elem? p.workers i ≡ some w
    → get_elem? (work (some w) i p).workers i ≡ some exited
unfolding work fetch complete leave
work_exits i p idle (s, k) h = ground (arith, s, k, get_elem?-set_worker i idle exited p.workers h)
work_exits i p exited (s, k) h = h
work_exits i p (busy t) (s, k) h =
    ground (arith, s, k, get_elem?-set_worker i (busy t) exited p.workers h)

started_by_none : (p : ThreadPool) (e : Event) → Stopped p → started_by p e ≡ []
unfolding started_by step
started_by_none p (works i) h = elim (Option-cases (get_elem? p.workers i)) [
  | inl e ↦ rw e refl
  | inr (w, e) ↦ rw e (rw (work_exits i p w h e) (now_exited w))
]
  where
    now_exited : (w : Worker) → turned_to (some w) (some exited) ≡ []
    now_exited idle = refl
    now_exited exited = refl
    now_exited (busy t) = refl
started_by_none p (submits locked t) h = refl
started_by_none p stops h = refl
started_by_none p shutdown_elsewhere h = refl
started_by_none p exits_elsewhere h = refl
started_by_none p forces h = refl
started_by_none p (clears locked) h = refl

-- What is left of a queue that nothing is put into or taken from, and that is cleared where the lock is
-- had.
unfoldable pub remaining : List Event → List ℕ → List ℕ
remaining [] tasks = tasks
remaining (clears true ∷ es) tasks = remaining es []
remaining (e ∷ es) tasks = remaining es tasks

tasks-work : (w : Option Worker) (i : ℕ) (p : ThreadPool) → Stopped p → (work w i p).tasks ≡ p.tasks
unfolding work fetch complete leave
tasks-work none i p h = refl
tasks-work (some exited) i p h = refl
tasks-work (some idle) i p (h, k) = ground (arith, h, k)
tasks-work (some (busy t)) i p (h, k) = ground (arith, h, k)

remaining_of : (es : List Event) {xs ys : List ℕ} → xs ≡ ys → remaining es xs ≡ remaining es ys
remaining_of es e = ap (remaining es) e

Stopped-quiet :
    (p : ThreadPool) (es : List Event)
    → Stopped p
    → (started p es ≡ []) × ((run p es).tasks ≡ remaining es p.tasks)
unfolding started run remaining
Stopped-quiet p [] h = (refl, refl)
Stopped-quiet p (submits locked t ∷ es) (h, k) =
    let (a, b) =
      Stopped-quiet (step p (submits locked t)) es (step-Stopped p (submits locked t) (h, k)) in
    (
      ap₂ ◌++◌ (started_by_none p (submits locked t) (h, k)) a,
      b ∙ remaining_of es (unfold step enqueue in ground (arith, h)),
    )
Stopped-quiet p (works i ∷ es) h =
    let (a, b) = Stopped-quiet (step p (works i)) es (step-Stopped p (works i) h) in
    (
      ap₂ ◌++◌ (started_by_none p (works i) h) a,
      b ∙ remaining_of es (unfold step in tasks-work (get_elem? p.workers i) i p h),
    )
Stopped-quiet p (stops ∷ es) h =
    let (a, b) = Stopped-quiet (step p stops) es (step-Stopped p stops h) in
    (ap₂ ◌++◌ (started_by_none p stops h) a, b ∙ remaining_of es (unfold step begin_stop in refl))
Stopped-quiet p (shutdown_elsewhere ∷ es) h =
    let (a, b) =
      Stopped-quiet (step p shutdown_elsewhere) es (step-Stopped p shutdown_elsewhere h) in
    (ap₂ ◌++◌ (started_by_none p shutdown_elsewhere h) a, b ∙ remaining_of es (unfold step in refl))
Stopped-quiet p (exits_elsewhere ∷ es) h =
    let (a, b) = Stopped-quiet (step p exits_elsewhere) es (step-Stopped p exits_elsewhere h) in
    (ap₂ ◌++◌ (started_by_none p exits_elsewhere h) a, b ∙ remaining_of es (unfold step in refl))
Stopped-quiet p (forces ∷ es) h =
    let (a, b) = Stopped-quiet (step p forces) es (step-Stopped p forces h) in
    (ap₂ ◌++◌ (started_by_none p forces h) a, b ∙ remaining_of es (unfold step in refl))
Stopped-quiet p (clears true ∷ es) h =
    let (a, b) = Stopped-quiet (step p (clears true)) es (step-Stopped p (clears true) h) in
    (
      ap₂ ◌++◌ (started_by_none p (clears true) h) a,
      b ∙ remaining_of es (unfold step clear_tasks in refl),
    )
Stopped-quiet p (clears false ∷ es) h =
    let (a, b) = Stopped-quiet (step p (clears false)) es (step-Stopped p (clears false) h) in
    (
      ap₂ ◌++◌ (started_by_none p (clears false) h) a,
      b ∙ remaining_of es (unfold step clear_tasks in refl),
    )

-- Once `stop` is called, no worker starts another task, and the queue keeps its tasks, with no other
-- task let in, until it is cleared; whatever happens next and in whatever order.
pub begin_stop_quiet :
    (p : ThreadPool) (es : List Event)
    → (started (begin_stop p) es ≡ []) × ((run (begin_stop p) es).tasks ≡ remaining es p.tasks)
unfolding begin_stop
begin_stop_quiet p es = Stopped-quiet (begin_stop p) es (begin_stop-Stopped p)
