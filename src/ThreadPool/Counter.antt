-- ===== src/ThreadPool/Counter.antt =====
-- What the thread counter of include/core/shutdown_coordinator.h says about the workers of
-- src/core/thread_pool.cpp, which decrement it and never increment it: nothing registers a thread.
use web_server_http.Common.{
  ℕ, zero, suc, Bool, true, false, subst, ◌+◌, List, [], ◌∷◌, ◌≡◌, refl, ap, ◌∙◌, ◌==◌, get_elem?,
  Option, none, some, List-cases, inl, inr, arith,
}
use web_server_http.ThreadPool.{
  Worker, idle, exited, busy, ThreadPool, enqueue, set_worker, leave, fetch, complete, begin_stop,
  request_shutdown, thread_exiting, clear_tasks, work, step, run, Event, submits, works, stops,
  shutdown_elsewhere, exits_elsewhere, forces, clears,
}
use web_server_http.ThreadPool.{new_pool, repeat_worker, all_threads_stopped}
use web_server_http.Common.Int.{ℤ, pos, negsuc, decrement, is_zero}

abbrev pub weight : Worker → ℕ
weight exited = 1
weight idle = 0
weight (busy t) = 0

-- How many workers have left.
abbrev pub exited_count : List Worker → ℕ
exited_count [] = 0
exited_count (w ∷ ws) = weight w + exited_count ws

abbrev pub minus : ℕ → ℤ
minus zero = pos 0
minus (suc n) = negsuc n

decrement-minus : (n : ℕ) → decrement (minus n) ≡ minus (suc n)
decrement-minus zero = refl
decrement-minus (suc n) = refl

exited_count-set_worker :
    (i : ℕ) (v w : Worker) (ws : List Worker)
    → weight v ≡ 0
    → get_elem? ws i ≡ some v
    → exited_count (set_worker i w ws) ≡ weight w + exited_count ws
unfolding set_worker
exited_count-set_worker i v w [] l h = absurd cc
exited_count-set_worker zero v w (x ∷ ws) l h =
    let same : x ≡ v = cc in omega (arith, l, ap weight same)
exited_count-set_worker (suc i) v w (x ∷ ws) l h =
    omega (arith, exited_count-set_worker i v w ws l h)

-- One more behind a thread outside of the pool that reports its exit.
abbrev pub elsewhere : Event → ℕ → ℕ
elsewhere exits_elsewhere k = 1 + k
elsewhere (submits locked t) k = k
elsewhere (works i) k = k
elsewhere stops k = k
elsewhere shutdown_elsewhere k = k
elsewhere forces k = k
elsewhere (clears locked) k = k

-- How many threads outside of the pool have reported that they exit.
unfoldable pub exited_elsewhere : List Event → ℕ
exited_elsewhere [] = 0
exited_elsewhere (e ∷ es) = elsewhere e (exited_elsewhere es)

-- No wait for the threads has ended by force.
unfoldable pub unforced : List Event → Bool
unforced [] = true
unforced (forces ∷ es) = false
unforced (e ∷ es) = unforced es

-- The counter is minus the number of the workers that have left and of `k` other threads.
abbrev Counted : ℕ → ThreadPool → Type 0
Counted k p = p.coordinator.active_threads ≡ minus (exited_count p.workers + k)

leave-Counted :
    (i k : ℕ) (p : ThreadPool) (v : Worker)
    → weight v ≡ 0
    → get_elem? p.workers i ≡ some v
    → Counted k p
    → Counted k (leave i p)
unfolding leave thread_exiting
leave-Counted i k p v l h c =
    let n = exited_count p.workers + k in
    let more : suc n ≡ 1 + exited_count p.workers + k = omega arith in
    rw (c, exited_count-set_worker i v exited p.workers l h) (decrement-minus n ∙ ap minus more)

work-Counted :
    (i k : ℕ) (p : ThreadPool) (w : Option Worker)
    → get_elem? p.workers i ≡ w
    → Counted k p
    → Counted k (work w i p)
unfolding work fetch complete
work-Counted i k p none h c = c
work-Counted i k p (some exited) h c = c
work-Counted i k p (some (busy t)) h c = ground (
  arith,
  c,
  leave-Counted i k p (busy t) refl h c,
  exited_count-set_worker i (busy t) idle p.workers refl h,
)
work-Counted i k p (some idle) h c = elim (List-cases p.tasks) [
  | inl e ↦ ground (arith, e, c, leave-Counted i k p idle refl h c)
  | inr (t, r, e) ↦ ground (
    arith,
    e,
    c,
    leave-Counted i k p idle refl h c,
    exited_count-set_worker i idle (busy t) p.workers refl h,
  )
]

step-Counted :
    (p : ThreadPool) (e : Event) (k : ℕ)
    → unforced (e ∷ []) ≡ true
    → Counted k p
    → Counted (elsewhere e k) (step p e)
unfolding step unforced
step-Counted p (submits locked t) k u c = unfold enqueue in ground (arith, c)
step-Counted p (works i) k u c = work-Counted i k p (get_elem? p.workers i) refl c
step-Counted p stops k u c = unfold begin_stop request_shutdown in c
step-Counted p shutdown_elsewhere k u c = unfold request_shutdown in c
step-Counted p exits_elsewhere k u c =
    let n = exited_count p.workers + k in
    let more : suc n ≡ exited_count p.workers + (1 + k) = omega arith in
    unfold thread_exiting in (ap decrement c ∙ (decrement-minus n ∙ ap minus more))
step-Counted p forces k u c = absurd cc
step-Counted p (clears locked) k u c = unfold clear_tasks in ground (arith, c)

first_unforced :
    (e : Event) (es : List Event)
    → unforced (e ∷ es) ≡ true
    → (unforced (e ∷ []) ≡ true) × (unforced es ≡ true)
unfolding unforced
first_unforced (submits locked t) es h = (refl, h)
first_unforced (works i) es h = (refl, h)
first_unforced stops es h = (refl, h)
first_unforced shutdown_elsewhere es h = (refl, h)
first_unforced exits_elsewhere es h = (refl, h)
first_unforced forces es h = absurd cc
first_unforced (clears locked) es h = (refl, h)

moved : (e : Event) (n k : ℕ) → n + elsewhere e k ≡ elsewhere e n + k
moved (submits locked t) n k = refl
moved (works i) n k = refl
moved stops n k = refl
moved shutdown_elsewhere n k = refl
moved exits_elsewhere n k = omega arith
moved forces n k = refl
moved (clears locked) n k = refl

run-Counted :
    (p : ThreadPool) (es : List Event) (k : ℕ)
    → unforced es ≡ true
    → Counted k p
    → Counted (exited_elsewhere es + k) (run p es)
unfolding run exited_elsewhere
run-Counted p [] k u c =
    let none_more : k ≡ 0 + k = omega arith in subst (λ j. Counted j p) none_more c
run-Counted p (e ∷ es) k u c =
    let (one, rest) = first_unforced e es u in
    subst (λ j. Counted j (run (step p e) es)) (moved e (exited_elsewhere es) k)
      (run-Counted (step p e) es (elsewhere e k) rest (step-Counted p e k one c))

exited_count-repeat_worker : (n : ℕ) → exited_count (repeat_worker n) ≡ 0
unfolding repeat_worker
exited_count-repeat_worker zero = refl
exited_count-repeat_worker (suc n) = omega (arith, exited_count-repeat_worker n)

is_zero-minus : (n : ℕ) → is_zero (minus n) ≡ (n == 0)
is_zero-minus zero = refl
is_zero-minus (suc n) = ground arith

-- In a pool of any size and after any events in which no wait for the threads has ended by force, the
-- condition that `wait_for_all_threads` waits for holds exactly if no worker has left and no other
-- thread has reported that it exits: once one has, it does not hold, not even when all have.
pub all_threads_stopped_iff :
    (num_threads : ℕ) (es : List Event)
    → unforced es ≡ true
    → let after = run (new_pool num_threads) es in
      all_threads_stopped after.coordinator
      ≡ (exited_count after.workers + exited_elsewhere es == 0)
unfolding all_threads_stopped
all_threads_stopped_iff num_threads es u =
    let start : Counted 0 (new_pool num_threads) =
      unfold new_pool in rw (exited_count-repeat_worker num_threads) refl in
    let after = run (new_pool num_threads) es in
    let none_more : exited_elsewhere es + 0 ≡ exited_elsewhere es = omega arith in
    ap is_zero
      (subst (λ k. Counted k after) none_more (run-Counted (new_pool num_threads) es 0 u start))
    ∙ is_zero-minus (exited_count after.workers + exited_elsewhere es)
