-- ===== src/Server/Cleanup/Complete.antt =====
-- `cleanup` of src/core/server.cpp leaves nothing behind.
use web_server_http.Common.{
  ℕ, zero, suc, List, Option, none, some, map, Bool, true, [], ◌++◌, ◌≡◌, refl, sym, ap, ◌∙◌,
  Bool-cases, inl, inr, if◌then◌else◌, arith,
}
use web_server_http.Server.Cleanup.{Owned, stop_websocket, threads_exit, wait_or_force, cleanup}
use web_server_http.Server.State.{close_all_sockets}
use web_server_http.Server.Tls.Context.{held, cleanup_ssl_context}
use web_server_http.WebSocket.Connections.{Table, stop}
use web_server_http.ThreadPool.{
  Coordinator, request_shutdown, thread_exiting, all_threads_stopped, force_shutdown_threads,
}

wait_or_force-stopped : (c : Coordinator) → all_threads_stopped (wait_or_force c) ≡ true
unfolding wait_or_force
wait_or_force-stopped c = elim (Bool-cases (all_threads_stopped c)) [
  | inl q ↦ rw (q, wait_or_force) q
  | inr q ↦ rw (q, wait_or_force) (unfold all_threads_stopped force_shutdown_threads in refl)
]

shutdown-threads_exit :
    (n : ℕ) (c : Coordinator) → (threads_exit n c).shutdown_requested ≡ c.shutdown_requested
unfolding threads_exit thread_exiting
shutdown-threads_exit zero c = refl
shutdown-threads_exit (suc n) c = shutdown-threads_exit n c

shutdown-wait_or_force :
    (c : Coordinator) → (wait_or_force c).shutdown_requested ≡ c.shutdown_requested
unfolding wait_or_force force_shutdown_threads
shutdown-wait_or_force c = ground arith

if_true : {A : Type 0} {b : Bool} (x y : A) → b ≡ true → (if b then x else y) ≡ x
if_true x y e = rw (e) refl

-- After a shutdown that all threads have left, another request changes nothing.
settled :
    (c : Coordinator)
    → c.shutdown_requested ≡ true
    → all_threads_stopped c ≡ true
    → wait_or_force (request_shutdown c) ≡ c
unfolding wait_or_force request_shutdown all_threads_stopped
settled c s a = if_true _ _ a ∙ ap (λ b. record c { shutdown_requested = b }) (sym s)

-- The sockets of the connections of the WebSocket handler.
abbrev pub websocket_sockets : Option Table → List ℕ
websocket_sockets none = []
websocket_sockets (some table) = map (λ entry. entry.1.socket) table

stop_websocket-sockets : (o : Option Table) → stop_websocket o ≡ websocket_sockets o
unfolding stop_websocket stop
stop_websocket-sockets none = refl
stop_websocket-sockets (some table) = refl

-- Whatever the server owned and however many threads exit in time, `cleanup` closes each descriptor
-- that the listening socket, the connections of the WebSocket handler and the list of sockets held, in this order, and
-- requests the shutdown. A second `cleanup`, as by the destructor, closes and frees nothing and changes
-- nothing.
pub cleanup_complete :
    (leaving : ℕ) (w : Owned)
    → let (after, closed, freed) = cleanup leaving w in
      (closed ≡ held w.server_fd ++ (websocket_sockets w.websocket_handler ++ w.server.sockets))
      × (freed ≡ held w.tls.ssl_ctx)
      × (after.coordinator.shutdown_requested ≡ true)
      × (cleanup 0 after ≡ (after, [], []))
unfolding cleanup close_all_sockets cleanup_ssl_context request_shutdown stop_websocket threads_exit
cleanup_complete leaving w =
    let left = threads_exit leaving (request_shutdown w.coordinator) in
    let requested =
      shutdown-wait_or_force left
      ∙ shutdown-threads_exit leaving (request_shutdown w.coordinator) in
    (
      ap (λ s. held w.server_fd ++ (s ++ w.server.sockets))
          (stop_websocket-sockets w.websocket_handler),
      refl,
      requested,
      ap (λ c. (record (cleanup leaving w).0 { coordinator = c }, [], []))
          (settled (wait_or_force left) requested (wait_or_force-stopped left)),
    )
