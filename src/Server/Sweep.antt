-- ===== src/Server/Sweep.antt =====
-- `manage_connections` of src/core/server.cpp: which connections the sweep closes and which it keeps.
use web_server_http.Common.{
  ℕ, ◌-◌, ◌/◌, Bool, true, false, List, [], ◌∷◌, ◌≡◌, refl, ap, ◌∙◌, ◌||◌, not, Option, none, some,
  Option-cases, ltb, ◌==◌, ==_iff, Bool-cases, inl, inr, if◌then◌else◌, arith,
}
use web_server_http.Common.Dict.{lookup, erase, lookup-erase, nat_key}
use web_server_http.Server.State.{
  Server, expired_connections, erase_connections, unregister_all, unregister_socket, remove_socket,
  manage_connections,
}

unfoldable pub listed : ℕ → List ℕ → Bool
listed x [] = false
listed x (y ∷ ys) = y == x || listed x ys

-- Each socket stands in the table once, as the keys of a map do.
unfoldable pub distinct : List (ℕ × ℕ) → Bool
unfolding lookup
distinct [] = true
distinct ((socket, seen) ∷ m) = elim (lookup socket m) [ none ↦ distinct m | some _ ↦ false ]

lookup-erase_connections :
    (x : ℕ) (ids : List ℕ) (m : List (ℕ × ℕ))
    → lookup x (erase_connections ids m) ≡ (if listed x ids then none else lookup x m)
unfolding erase_connections listed
lookup-erase_connections x [] m = refl
lookup-erase_connections x (i ∷ ids) m =
    ground (arith, lookup-erase_connections x ids (erase i m), lookup-erase i x m)

connection_timestamps-unregister_all :
    (ids : List ℕ) (s : Server)
    → (unregister_all ids s).connection_timestamps ≡ s.connection_timestamps
unfolding unregister_all unregister_socket
connection_timestamps-unregister_all [] s = refl
connection_timestamps-unregister_all (i ∷ ids) s =
    connection_timestamps-unregister_all ids (unregister_socket i s)

pub listed-remove_socket :
    (x i : ℕ) (xs : List ℕ)
    → listed x (remove_socket i xs) ≡ (if i == x then false else listed x xs)
unfolding remove_socket listed
listed-remove_socket x i [] = ground arith
listed-remove_socket x i (y ∷ ys) = ground (arith, listed-remove_socket x i ys)

listed-unregister_all :
    (x : ℕ) (ids : List ℕ) (s : Server)
    → listed x (unregister_all ids s).sockets ≡ (if listed x ids then false else listed x s.sockets)
unfolding unregister_all unregister_socket listed
listed-unregister_all x [] s = refl
listed-unregister_all x (i ∷ ids) s =
    ground (
      arith,
      listed-unregister_all x ids (unregister_socket i s),
      listed-remove_socket x i s.sockets,
    )

-- Whether the table has the socket with a time that is more whole seconds ago than the timeout.
abbrev pub too_old : ℕ → ℕ → Option ℕ → Bool
too_old now timeout none = false
too_old now timeout (some seen) = ltb timeout ((now - seen) / 1000000000)

listed-expired :
    (x now timeout : ℕ) (m : List (ℕ × ℕ))
    → distinct m ≡ true
    → listed x (expired_connections now timeout m) ≡ too_old now timeout (lookup x m)
unfolding listed expired_connections lookup distinct
listed-expired x now timeout [] h = refl
listed-expired x now timeout ((socket, seen) ∷ m) h = elim (Option-cases (lookup socket m)) [
  | inr (t, e) ↦ absurd (ground (arith, h, e))
  | inl e ↦
      let d : distinct m ≡ true = rw (e, distinct) at h in
      elim (Bool-cases (socket == x)) [
        | inl q ↦
            let same : socket ≡ x = (==_iff socket x).0 q in
            let none_here : lookup x m ≡ none = rw same at e in
            ground (arith, q, listed-expired x now timeout m d, none_here)
        | inr q ↦ ground (arith, q, listed-expired x now timeout m d)
      ]
]

-- On a table with each socket once, a sweep that runs (keep-alive is on, no shutdown, the lock is had)
-- closes exactly the sockets whose last use is more whole seconds ago than the timeout: these leave the table and
-- the list of sockets, and all others keep their entries in both.
pub manage_connections_lem :
    (s : Server) (now x : ℕ)
    → distinct s.connection_timestamps ≡ true
    → s.keep_alive_enabled ≡ true
    → let (after, closed) = manage_connections false true now s in
      let old = too_old now s.connection_timeout (lookup x s.connection_timestamps) in
      (listed x closed ≡ old)
      × (lookup x after.connection_timestamps
          ≡ (if old then none else lookup x s.connection_timestamps))
      × (listed x after.sockets ≡ (if old then false else listed x s.sockets))
unfolding manage_connections
manage_connections_lem s now x h k =
    let expired = expired_connections now s.connection_timeout s.connection_timestamps in
    let kept = record s {
      connection_timestamps = erase_connections expired s.connection_timestamps;
    } in
    let old = listed-expired x now s.connection_timeout s.connection_timestamps h in
    let swept : manage_connections false true now s ≡ (unregister_all expired kept, expired) =
      ap
        (λ on.
          if not on || false || not true then (s, []) else (unregister_all expired kept, expired))
        k in
    rw swept (
      old,
      ap (lookup x) (connection_timestamps-unregister_all expired kept)
          ∙ (lookup-erase_connections x expired s.connection_timestamps
              ∙ ap (λ b. if b then none else lookup x s.connection_timestamps) old),
      listed-unregister_all x expired kept ∙ ap (λ b. if b then false else listed x s.sockets) old,
    )
