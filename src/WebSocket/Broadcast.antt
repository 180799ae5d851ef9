-- ===== src/WebSocket/Broadcast.antt =====
-- `broadcast_message` of src/handlers/websocket_handler.cpp: whom it reaches, and whom it drops.
use web_server_http.Common.{
  ℕ, ◌+◌, Bool, true, false, List, [], ◌∷◌, ◌≡◌, refl, ap, ◌∙◌, ◌||◌, not, map, Bytes, equal,
  equal_iff, Option, none, some, Option-cases, Bool-cases, inl, inr, if◌then◌else◌, arith,
}
use web_server_http.Common.Dict.{lookup, erase, lookup-erase, bytes_key}
use web_server_http.WebSocket.Connections.{
  WebSocketConnection, Table, erase_all, broadcast_loop, broadcast_message,
}
use web_server_http.WebSocket.Frame.{create_frame, opcode_text}

unfoldable pub listed : Bytes → List Bytes → Bool
unfolding equal
listed x [] = false
listed x (y ∷ ys) = equal y x || listed x ys

-- Each client stands in the table once, as the keys of a map do.
unfoldable pub distinct : Table → Bool
unfolding lookup
distinct [] = true
distinct ((id, conn) ∷ table) = elim (lookup id table) [ none ↦ distinct table | some _ ↦ false ]

lookup-erase_all :
    (x : Bytes) (ids : List Bytes) (table : Table)
    → lookup x (erase_all ids table) ≡ (if listed x ids then none else lookup x table)
unfolding erase_all listed
lookup-erase_all x [] table = refl
lookup-erase_all x (i ∷ ids) table =
    ground (arith, lookup-erase_all x ids (erase i table), lookup-erase i x table)

-- Whether the table has the client, with a connection that a send fails on.
abbrev pub unreachable : (WebSocketConnection → Bool) → Option WebSocketConnection → Bool
unreachable sends none = false
unreachable sends (some conn) = not (sends conn)

module _ (sends : WebSocketConnection → Bool) (frame : Bytes) where
  listed-dead :
      (x : Bytes) (i : ℕ) (table : Table)
      → distinct table ≡ true
      → listed x (broadcast_loop (λ _. true) sends frame i table).1
        ≡ unreachable sends (lookup x table)
  unfolding listed broadcast_loop lookup distinct
  listed-dead x i [] h = refl
  listed-dead x i ((id, conn) ∷ table) h = elim (Option-cases (lookup id table)) [
    | inr (t, e) ↦ absurd (ground (arith, h, e))
    | inl e ↦
        let d : distinct table ≡ true = rw (e, distinct) at h in
        elim (Bool-cases (equal id x)) [
          | inl q ↦
              let same : id ≡ x = (equal_iff id x).0 q in
              let none_here : lookup x table ≡ none = rw same at e in
              ground (arith, q, listed-dead x (i + 1) table d, none_here)
          | inr q ↦ ground (arith, q, listed-dead x (i + 1) table d)
        ]
  ]

  sent-all :
      (i : ℕ) (table : Table)
      → (broadcast_loop (λ _. true) sends frame i table).0
        ≡ map (λ entry. (entry.1.socket, frame)) table
  unfolding broadcast_loop
  sent-all i [] = refl
  sent-all i ((id, conn) ∷ table) = ap (◌∷◌ (conn.socket, frame)) (sent-all (i + 1) table)

-- While the handler runs and the lock is had, on a table with each client once, a broadcast writes the
-- frame of the message once to the socket of every client, in the order of the table, and then the
-- table has exactly the clients that the send did not fail for, with the connections that they had.
pub broadcast_message_lem :
    (sends : WebSocketConnection → Bool) (message x : Bytes) (table : Table)
    → distinct table ≡ true
    → let (after, sent) = broadcast_message true (λ _. true) sends message table in
      (sent ≡ map (λ entry. (entry.1.socket, create_frame opcode_text message)) table)
      × (lookup x after ≡ (if unreachable sends (lookup x table) then none else lookup x table))
unfolding broadcast_message
broadcast_message_lem sends message x table h =
    let frame = create_frame opcode_text message in
    (
      sent-all sends frame 1 table,
      lookup-erase_all x (broadcast_loop (λ _. true) sends frame 1 table).1 table
          ∙ ap (λ b. if b then none else lookup x table) (listed-dead sends frame x 1 table h),
    )
