-- ===== src/Server/Accept/Serving.antt =====
-- The accept loop of src/core/server.cpp while nobody requests the shutdown.
use web_server_http.Common.{
  ℕ, Bool, true, false, List, [], ◌∷◌, ◌++◌, ◌≡◌, refl, sym, ◌∙◌, ap, subst, ◌&&◌, not,
  if◌then◌else◌, append-nil, append_assoc, arith,
}
use web_server_http.Server.Accept.{
  Listener, AcceptEvent, interrupted, select_failed, select_timeout, not_ready, accept_failed,
  accepted, Accepting, going_on, accept_loop, accept_round, admit, met, signal_handler,
  after_signal,
}
use web_server_http.Server.Accept.Conserved.{accepted_sockets}
use web_server_http.ThreadPool.{ThreadPool, enqueue}

-- Nothing happens that ends the loop: no failed `select`, no signal during `accept`, no request for the
-- shutdown, and no signal after a first one.
unfoldable pub quiet : Bool → List AcceptEvent → Bool
quiet signalled [] = true
quiet signalled (interrupted ∷ es) = not signalled && quiet true es
quiet signalled (select_failed ∷ es) = false
quiet signalled (select_timeout ∷ es) = quiet signalled es
quiet signalled (not_ready ∷ es) = quiet signalled es
quiet signalled (accept_failed by_signal requested ∷ es) =
    not by_signal && (not requested && quiet signalled es)
quiet signalled (accepted socket now requested locked ∷ es) = not requested && quiet signalled es

if_false : {A : Type 0} {b : Bool} (x y : A) → b ≡ false → (if b then x else y) ≡ y
if_false x y e = rw (e) refl

-- The pool takes tasks.
abbrev pub Open : ThreadPool → Type 0
Open p = (p.coordinator.shutdown_requested ≡ false) × (p.stop_flag ≡ false)

goes_on :
    (l l' : Listener) (e : AcceptEvent) (es : List AcceptEvent)
    → Open l.pool
    → accept_round l e ≡ (l', [], going_on)
    → accept_loop l (e ∷ es) ≡ accept_loop l' es
unfolding accept_loop met
goes_on l l' e es (f, g) r = if_false _ _ f ∙ ap (λ round. met es round (accept_loop round.0 es)) r

admit-enqueue :
    (socket now : ℕ) (locked : Bool) (l : Listener)
    → Open l.pool
    → (admit socket now locked l).pool ≡ record l.pool { tasks = l.pool.tasks ++ socket ∷ [] }
unfolding admit enqueue
admit-enqueue socket now locked l (f, g) =
    if_false _ _ g
    ∙ if_false {b = not locked && l.pool.coordinator.shutdown_requested} _ _ (ground (arith, f))

-- After a first signal.
abbrev first_signal : Listener → Listener
first_signal l = record l {
  signals = record { shutdown_in_progress = true; g_shutdown_requested = true };
}

-- What the loop has come to, from these tasks.
abbrev pub Serves : List ℕ → List AcceptEvent → Accepting → Type 0
Serves tasks es out =
    (out.going ≡ going_on) × (out.listener.pool.tasks ≡ tasks ++ accepted_sockets es)

-- As long as `select` does not fail, no signal comes during `accept`, no second signal comes after a
-- first one and nobody requests the shutdown,
-- the loop goes on and a pool that takes tasks gets each accepted socket as a task, in order. This holds
-- as well behind a first signal: the loop does not read the flag that `signal_handler` sets.
pub accept_loop-Serves :
    (l : Listener) (es : List AcceptEvent)
    → Open l.pool
    → quiet l.signals.shutdown_in_progress es ≡ true
    → Serves l.pool.tasks es (accept_loop l es)
unfolding quiet accepted_sockets accept_round after_signal signal_handler admit
accept_loop-Serves l [] (f, g) q =
    unfold accept_loop in (if_false _ _ f, sym (append-nil l.pool.tasks))
accept_loop-Serves l (interrupted ∷ es) o q =
    let (fresh, rest) : (l.signals.shutdown_in_progress ≡ false) × (quiet true es ≡ true) =
      ground (arith, q) in
    subst (Serves l.pool.tasks es)
      (sym (
        goes_on l (first_signal l) interrupted es o
          (ap (after_signal going_on l) (if_false _ _ fresh))))
      (accept_loop-Serves (first_signal l) es o rest)
accept_loop-Serves l (select_failed ∷ es) o q = absurd (ground (arith, q))
accept_loop-Serves l (select_timeout ∷ es) o q =
    subst (Serves l.pool.tasks es) (sym (goes_on l l select_timeout es o refl))
      (accept_loop-Serves l es o q)
accept_loop-Serves l (not_ready ∷ es) o q =
    subst (Serves l.pool.tasks es) (sym (goes_on l l not_ready es o refl))
      (accept_loop-Serves l es o q)
accept_loop-Serves l (accept_failed false false ∷ es) o q =
    subst (Serves l.pool.tasks es)
      (sym (goes_on l l (accept_failed false false) es o (ap (λ g. (l, [], g)) (if_false _ _ o.0))))
      (accept_loop-Serves l es o q)
accept_loop-Serves l (accept_failed false true ∷ es) o q = absurd (ground (arith, q))
accept_loop-Serves l (accept_failed true requested ∷ es) o q = absurd (ground (arith, q))
accept_loop-Serves l (accepted socket now true locked ∷ es) o q = absurd (ground (arith, q))
accept_loop-Serves l (accepted socket now false locked ∷ es) o q =
    let next = admit socket now locked l in
    let queued = admit-enqueue socket now locked l o in
    let (going, tasks) = accept_loop-Serves next es (subst Open (sym queued) o) q in
    subst (Serves l.pool.tasks (accepted socket now false locked ∷ es))
      (sym (goes_on l next (accepted socket now false locked) es o (if_false _ _ o.0)))
      (
        going,
        tasks ∙ (ap (λ p. p.tasks ++ accepted_sockets es) queued ∙ append_assoc l.pool.tasks _ _),
      )
