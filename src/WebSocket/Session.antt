-- ===== src/WebSocket/Session.antt =====
-- `handle_websocket_connection` and `handle_websocket_connection_safe` as loops over what their system
-- calls return. The two differ in how they wait for data; the second also sends no snapshot.
use web_server_http.Common.{
  ℕ, Bool, true, false, List, [], ◌∷◌, ◌++◌, not, ◌||◌, Option, none, some, ◌==◌, if◌then◌else◌,
  Bytes, codes, equal, returned, threw, Exception,
}
use web_server_http.WebSocket.Frame.{
  WebSocketFrame, parse_frame, create_frame, opcode_text, opcode_close, opcode_ping, opcode_pong,
}
use web_server_http.WebSocket.Connections.{
  Table, Sent, add_connection, remove_connection, send_message_to_client,
}

-- What the environment decides in a round: the reads of `running` (and of the shutdown flag) behind
-- the `recv`, whether the lock of the table is had, and whether a send succeeds.
pub record Round : Type 0 where
  pub running : Bool
  pub locked : Bool
  pub send_ok : Bool

-- What a round meets: bytes; no bytes yet; the end of the stream, an error or a stopped handler.
pub data Event : Type 0 where
  received : Bytes → Round → Event
  would_block closed failed stopped : Event

-- What the loop does about a frame.
pub data Reply : Type 0 where
  hang_up send_pong nothing : Reply
  answer : ℕ → Reply

-- The three documents that a client can ask for.
abbrev pub metrics_document : ℕ
metrics_document = 0

abbrev pub rate_document : ℕ
rate_document = 1

abbrev pub system_document : ℕ
system_document = 2

-- The chain of tests on a frame.
unfoldable pub reply_to : Bool → WebSocketFrame → Reply
unfolding equal
reply_to running frame =
    if (frame.opcode == opcode_close) || not running
    then hang_up
    else if frame.opcode == opcode_ping
    then send_pong
    else if frame.opcode == opcode_text
    then (if equal frame.payload (codes "request_metrics")
        then answer metrics_document
        else if equal frame.payload (codes "request_rate")
        then answer rate_document
        else if equal frame.payload (codes "system_metrics")
        then answer system_document
        else nothing)
    else nothing

-- How a session ends: the connection is removed and its socket closed; an exception leaves the
-- function of the thread; or no further event is given.
pub data End : Type 0 where
  removed waiting : End
  died : Exception → End

-- `document` gives the texts of the metrics, `none` if the handler has no metrics.
module _ (document : ℕ → Option Bytes) (socket : ℕ) (id : Bytes) where
  unfoldable pub send_document : Round → ℕ → Table → Table × Sent
  unfolding send_message_to_client
  send_document round n table = elim (document n) [
    | none ↦ (table, [])
    | some text ↦
        send_message_to_client round.locked round.running (λ _. round.send_ok) id text table
  ]

  unfoldable pub session : Table → List Event → Table × Sent × End
  session table [] = (table, [], waiting)
  session table (would_block ∷ es) = session table es
  session table (received text round ∷ es) = elim (parse_frame text) [
    | threw e ↦ (table, [], died e)
    | returned frame ↦ elim (reply_to round.running frame) [
      | hang_up ↦ (remove_connection id table, [], removed)
      | nothing ↦ session table es
      | send_pong ↦ elim round.send_ok [
        | true ↦
            let (table', sent, last) = session table es in
            (table', (socket, create_frame opcode_pong []) ∷ sent, last)
        | false ↦ (remove_connection id table, (socket, create_frame opcode_pong []) ∷ [], removed)
      ]
      | answer n ↦
          let (table', out) = send_document round n table in
          let (table'', sent, last) = session table' es in (table'', out ++ sent, last)
    ]
  ]
  session table (_ ∷ es) = (remove_connection id table, [], removed)

  -- `handle_websocket_connection`: the snapshot of three documents goes out first.
  unfoldable pub handle_websocket_connection : ℕ → Round → List Event → Table → Table × Sent × End
  handle_websocket_connection now first es table =
      let (t1, out1) = send_document first metrics_document (add_connection now socket id table) in
      let (t2, out2) = send_document first system_document t1 in
      let (t3, out3) = send_document first rate_document t2 in
      let (t, sent, last) = session t3 es in (t, out1 ++ (out2 ++ (out3 ++ sent)), last)

  -- `handle_websocket_connection_safe`.
  unfoldable pub handle_websocket_connection_safe : ℕ → List Event → Table → Table × Sent × End
  handle_websocket_connection_safe now es table = session (add_connection now socket id table) es
