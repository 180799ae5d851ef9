-- ===== src/ThreadPool/Leaving.antt =====
-- How the workers of src/core/thread_pool.cpp leave.
use web_server_http.Common.{
  ℕ, zero, suc, Bool, true, false, List, [], ◌∷◌, ◌≡◌, refl, ◌||◌, ◌==◌, ==_iff, get_elem?, Option,
  none, some, Option-cases, List-cases, Bool-cases, inl, inr, arith,
}
use web_server_http.ThreadPool.{
  Worker, idle, exited, busy, ThreadPool, enqueue, set_worker, leave, fetch, complete, begin_stop,
  clear_tasks, work, step, run, Event, submits, works, stops, shutdown_elsewhere, exits_elsewhere,
  forces, clears,
}
use web_server_http.ThreadPool.Stopping.{Stopped, work_exits, step-Stopped, begin_stop-Stopped}

-- Whether worker `i` gets to a step.
unfoldable pub reaches : ℕ → List Event → Bool
reaches i [] = false
reaches i (works j ∷ es) = j == i || reaches i es
reaches i (_ ∷ es) = reaches i es

-- Neither waiting nor busy.
abbrev pub gone : Option Worker → Bool
gone (some idle) = false
gone (some (busy t)) = false
gone (some exited) = true
gone none = true

get_elem?-set_worker_other :
    (j i : ℕ) (w : Worker) (ws : List Worker)
    → (j == i) ≡ false
    → get_elem? (set_worker j w ws) i ≡ get_elem? ws i
unfolding set_worker
get_elem?-set_worker_other j i w [] h = refl
get_elem?-set_worker_other zero zero w (x ∷ ws) h = absurd (ground (arith, h))
get_elem?-set_worker_other zero (suc i) w (x ∷ ws) h = refl
get_elem?-set_worker_other (suc j) zero w (x ∷ ws) h = refl
get_elem?-set_worker_other (suc j) (suc i) w (x ∷ ws) h =
    get_elem?-set_worker_other j i w ws (ground (arith, h))

work_other :
    (v : Option Worker) (j i : ℕ) (p : ThreadPool)
    → (j == i) ≡ false
    → get_elem? (work v j p).workers i ≡ get_elem? p.workers i
unfolding work fetch complete leave
work_other none j i p h = refl
work_other (some exited) j i p h = refl
work_other (some (busy t)) j i p h = ground (
  arith,
  get_elem?-set_worker_other j i exited p.workers h,
  get_elem?-set_worker_other j i idle p.workers h,
)
work_other (some idle) j i p h = elim (List-cases p.tasks) [
  | inl e ↦ ground (arith, e, get_elem?-set_worker_other j i exited p.workers h)
  | inr (t, r, e) ↦ ground (
    arith,
    e,
    get_elem?-set_worker_other j i exited p.workers h,
    get_elem?-set_worker_other j i (busy t) p.workers h,
  )
]

work-gone :
    (i : ℕ) (p : ThreadPool) (w : Option Worker)
    → gone w ≡ true
    → get_elem? p.workers i ≡ w
    → gone (get_elem? (work w i p).workers i) ≡ true
unfolding work
work-gone i p none h e = rw e refl
work-gone i p (some exited) h e = rw e refl
work-gone i p (some idle) h e = absurd cc
work-gone i p (some (busy t)) h e = absurd cc

step-gone :
    (i : ℕ) (p : ThreadPool) (e : Event)
    → gone (get_elem? p.workers i) ≡ true
    → gone (get_elem? (step p e).workers i) ≡ true
unfolding step
step-gone i p (works j) h = elim (Bool-cases (j == i)) [
  | inl q ↦ rw ((==_iff j i).0 q) (work-gone i p (get_elem? p.workers i) h refl)
  | inr q ↦ rw (work_other (get_elem? p.workers j) j i p q) h
]
step-gone i p (submits locked t) h = unfold enqueue in ground (arith, h)
step-gone i p stops h = unfold begin_stop in h
step-gone i p shutdown_elsewhere h = h
step-gone i p exits_elsewhere h = h
step-gone i p forces h = h
step-gone i p (clears locked) h = unfold clear_tasks in ground (arith, h)

run-gone :
    (i : ℕ) (p : ThreadPool) (es : List Event)
    → gone (get_elem? p.workers i) ≡ true
    → gone (get_elem? (run p es).workers i) ≡ true
unfolding run
run-gone i p [] h = h
run-gone i p (e ∷ es) h = run-gone i (step p e) es (step-gone i p e h)

-- Its first step behind a stop ends a worker.
step_ends :
    (i : ℕ) (p : ThreadPool) → Stopped p → gone (get_elem? (step p (works i)).workers i) ≡ true
unfolding step
step_ends i p s = elim (Option-cases (get_elem? p.workers i)) [
  | inl e ↦ rw e (work-gone i p none refl e)
  | inr (w, e) ↦ rw e (rw (work_exits i p w s e) refl)
]

Stopped-leaves :
    (i : ℕ) (p : ThreadPool) (es : List Event)
    → Stopped p
    → reaches i es ≡ true
    → gone (get_elem? (run p es).workers i) ≡ true
unfolding reaches run
Stopped-leaves i p [] s h = absurd cc
Stopped-leaves i p (works j ∷ es) s h = elim (Bool-cases (j == i)) [
  | inl q ↦ run-gone i (step p (works j)) es (rw ((==_iff j i).0 q) (step_ends i p s))
  | inr q ↦ Stopped-leaves i (step p (works j)) es (step-Stopped p (works j) s) (rw q at h)
]
Stopped-leaves i p (submits locked t ∷ es) s h =
    Stopped-leaves i (step p (submits locked t)) es (step-Stopped p (submits locked t) s) h
Stopped-leaves i p (stops ∷ es) s h = Stopped-leaves i (step p stops) es (step-Stopped p stops s) h
Stopped-leaves i p (shutdown_elsewhere ∷ es) s h =
    Stopped-leaves i (step p shutdown_elsewhere) es (step-Stopped p shutdown_elsewhere s) h
Stopped-leaves i p (exits_elsewhere ∷ es) s h =
    Stopped-leaves i (step p exits_elsewhere) es (step-Stopped p exits_elsewhere s) h
Stopped-leaves i p (forces ∷ es) s h =
    Stopped-leaves i (step p forces) es (step-Stopped p forces s) h
Stopped-leaves i p (clears locked ∷ es) s h =
    Stopped-leaves i (step p (clears locked)) es (step-Stopped p (clears locked) s) h

-- Behind `stop`, a worker that gets to one step, whatever it was doing and whatever else happens
-- before and after, has left its loop for good.
pub begin_stop_leaves :
    (i : ℕ) (p : ThreadPool) (es : List Event)
    → reaches i es ≡ true
    → gone (get_elem? (run (begin_stop p) es).workers i) ≡ true
begin_stop_leaves i p es h = Stopped-leaves i (begin_stop p) es (begin_stop-Stopped p) h
