-- ===== src/Server/Accept/Conserved.antt =====
-- What becomes of the sockets that the accept loop of src/core/server.cpp is given, and of the one that
-- `initialize` makes.
use web_server_http.Common.{
  ℕ, Bool, true, false, List, [], ◌∷◌, ◌++◌, ◌≡◌, refl, sym, ◌∙◌, ap, ap₂, Option, none, some,
  Option-cases, Bool-cases, inl, inr, if◌then◌else◌, append-nil, append_assoc, arith,
}
use web_server_http.Server.Accept.{
  Going, going_on, left, process_ended, Accepting, at_end, after_signal, met, Signals, SocketCalls,
  initialize, Listener, AcceptEvent, interrupted, select_failed, select_timeout, not_ready,
  accept_failed, accepted, accept_loop, accept_round, admit, signal_handler, noticed,
}
use web_server_http.Server.State.{register_socket, add_connection_safe}
use web_server_http.Server.Tls.Context.{held}
use web_server_http.Server.Tls.Ownership.{is_some}

-- Whatever the system calls return, `initialize` has either kept or closed the descriptor that it was
-- given, once, and it reports success exactly if the server holds one.
pub initialize_lem :
    (c : SocketCalls)
    → (held (initialize c).server_fd ++ (initialize c).closed_fds ≡ held c.socket_made)
      × ((initialize c).success ≡ is_some (initialize c).server_fd)
unfolding initialize
initialize_lem c = elim (Option-cases c.socket_made) [
  | inl q ↦ rw (q, initialize) (refl, refl)
  | inr (fd, q) ↦ ground (arith, q)
]

-- The sockets that `accept` gives, in order.
unfoldable pub accepted_sockets : List AcceptEvent → List ℕ
accepted_sockets [] = []
accepted_sockets (accepted socket now requested locked ∷ es) = socket ∷ accepted_sockets es
accepted_sockets (_ ∷ es) = accepted_sockets es

accepted-one :
    (e : AcceptEvent) (es : List AcceptEvent)
    → accepted_sockets (e ∷ es) ≡ accepted_sockets (e ∷ []) ++ accepted_sockets es
unfolding accepted_sockets
accepted-one (accepted socket now requested locked) es = refl
accepted-one (accept_failed by_signal requested) es = refl
accepted-one _ es = refl

-- The sockets that the server has, has closed or has yet to be given.
total : Accepting → List ℕ
total out = out.listener.server.sockets ++ (out.closed_sockets ++ accepted_sockets out.unmet)

total_if :
    (b : Bool) (x y : Accepting) (all : List ℕ)
    → total x ≡ all
    → total y ≡ all
    → total (if b then x else y) ≡ all
total_if true x y all e f = e
total_if false x y all e f = f

-- A round adds the socket that it accepts at the end, or closes it.
abbrev Round : Type 0
Round = Listener × List ℕ × Going

Adds : Listener → AcceptEvent → Round → Type 0
Adds l e round =
    (round.0.server.sockets ++ round.1 ≡ l.server.sockets ++ accepted_sockets (e ∷ []))
    × (round.2 ≡ going_on → round.1 ≡ [])

noticed-sockets :
    (requested : Bool) (l : Listener) → (noticed requested l).server.sockets ≡ l.server.sockets
unfolding noticed
noticed-sockets true l = refl
noticed-sockets false l = refl

after_signal-sockets :
    (next : Going) (l : Listener) (answer : Option Signals)
    → ((after_signal next l answer).0.server.sockets ≡ l.server.sockets)
      × ((after_signal next l answer).1 ≡ [])
unfolding after_signal
after_signal-sockets next l none = (refl, refl)
after_signal-sockets next l (some g) = (refl, refl)

admit-sockets :
    (socket now : ℕ) (locked : Bool) (l : Listener)
    → (admit socket now locked l).server.sockets ≡ l.server.sockets ++ socket ∷ []
unfolding admit register_socket add_connection_safe
admit-sockets socket now locked l = ground arith

adds_nothing :
    (l : Listener) (round : Round)
    → (round.0.server.sockets ≡ l.server.sockets) × (round.1 ≡ [])
    → (round.0.server.sockets ++ round.1 ≡ l.server.sockets ++ [])
      × (round.2 ≡ going_on → round.1 ≡ [])
adds_nothing l round (e, f) = (ap₂ (◌++◌) e f, λ q. f)

accept_round-Adds : (l : Listener) (e : AcceptEvent) → Adds l e (accept_round l e)
unfolding Adds accept_round accepted_sockets
accept_round-Adds l interrupted =
    adds_nothing l (after_signal going_on l (signal_handler l.signals))
      (after_signal-sockets going_on l (signal_handler l.signals))
accept_round-Adds l select_failed = (refl, λ q. refl)
accept_round-Adds l select_timeout = (refl, λ q. refl)
accept_round-Adds l not_ready = (refl, λ q. refl)
accept_round-Adds l (accept_failed true requested) =
    let l' = noticed requested l in
    let (e, f) = after_signal-sockets left l' (signal_handler l.signals) in
    adds_nothing l (after_signal left l' (signal_handler l.signals))
      (e ∙ noticed-sockets requested l, f)
accept_round-Adds l (accept_failed false requested) =
    (ap (λ xs. xs ++ []) (noticed-sockets requested l), λ q. refl)
accept_round-Adds l (accepted socket now requested locked) =
    let l' = noticed requested l in
    elim (Bool-cases l'.pool.coordinator.shutdown_requested) [
      | inl q ↦ rw (q) (
        ap (λ xs. xs ++ socket ∷ []) (noticed-sockets requested l),
        λ g. absurd (ground (arith, g)),
      )
      | inr q ↦ rw (q) (
        append-nil _
            ∙ (admit-sockets socket now locked l'
                ∙ ap (λ xs. xs ++ socket ∷ []) (noticed-sockets requested l)),
        λ g. refl,
      )
    ]

met-total :
    (l : Listener) (e : AcceptEvent) (es : List AcceptEvent) (round : Round) (later : Accepting)
    → Adds l e round
    → total later ≡ round.0.server.sockets ++ accepted_sockets es
    → total (met es round later)
      ≡ l.server.sockets ++ (accepted_sockets (e ∷ []) ++ accepted_sockets es)
unfolding met total Adds
met-total l e es (l', closed, going_on) later (a, none_closed) h =
    let none_left = none_closed refl in
    let before = append-nil l'.server.sockets in
    let added = ap (λ xs. xs ++ accepted_sockets es) (rw (none_left, before) at a) in
    rw (none_left) (h ∙ (added ∙ append_assoc l.server.sockets _ _))
met-total l e es (l', closed, left) later (a, b) h =
    sym (append_assoc l'.server.sockets closed _)
    ∙ (ap (λ xs. xs ++ accepted_sockets es) a ∙ append_assoc l.server.sockets _ _)
met-total l e es (l', closed, process_ended) later (a, b) h =
    sym (append_assoc l'.server.sockets closed _)
    ∙ (ap (λ xs. xs ++ accepted_sockets es) a ∙ append_assoc l.server.sockets _ _)

-- The sockets of the server after the loop, those that it closed and those in the events that it did
-- not meet are the sockets before it and those that `accept` gives: none is lost, none is registered
-- twice, and the order is kept.
pub accept_loop-accepted_sockets :
    (l : Listener) (es : List AcceptEvent)
    → let out = accept_loop l es in
      out.listener.server.sockets ++ (out.closed_sockets ++ accepted_sockets out.unmet)
      ≡ l.server.sockets ++ accepted_sockets es
unfolding accept_loop accepted_sockets total
accept_loop-accepted_sockets l [] = refl
accept_loop-accepted_sockets l (e ∷ es) =
    let round = accept_round l e in
    let later = accept_loop round.0 es in
    total_if l.pool.coordinator.shutdown_requested (at_end l [] (e ∷ es) left) (met es round later)
      (l.server.sockets ++ accepted_sockets (e ∷ es)) refl
      (met-total l e es round later (accept_round-Adds l e)
          (accept_loop-accepted_sockets round.0 es)
        ∙ ap (λ xs. l.server.sockets ++ xs) (sym (accepted-one e es)))
