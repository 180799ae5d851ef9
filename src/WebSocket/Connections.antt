-- ===== src/WebSocket/Connections.antt =====
-- The table of connections and what is sent over it. A caller gives what the environment decides:
-- whether the lock is had, what the reads of `running` (and of the shutdown flag) return, and which
-- sends succeed. Each operation returns the table and the frames it wrote, as (socket, bytes).
use web_server_http.Common.{
  ℕ, ◌+◌, Bool, true, false, List, [], ◌∷◌, ◌&&◌, none, some, if◌then◌else◌, length, map, Bytes,
}
use web_server_http.Common.Dict.{lookup, insert, erase, bytes_key}
use web_server_http.WebSocket.Frame.{create_frame, opcode_text, opcode_ping}

pub record WebSocketConnection : Type 0 where
  pub socket : ℕ
  pub client_id : Bytes
  pub last_ping : ℕ
  pub is_authenticated : Bool

abbrev pub Table : Type 0
Table = List (Bytes × WebSocketConnection)

-- A frame handed to `send`, with its socket.
abbrev pub Sent : Type 0
Sent = List (ℕ × Bytes)

unfoldable pub add_connection : ℕ → ℕ → Bytes → Table → Table
unfolding insert
add_connection now socket id table =
    insert id
      (record { socket = socket; client_id = id; last_ping = now; is_authenticated = false }) table

unfoldable pub remove_connection : Bytes → Table → Table
unfolding erase
remove_connection id table = erase id table

-- `for (id : dead) connections.erase(id)`.
unfoldable pub erase_all : List Bytes → Table → Table
unfolding erase
erase_all [] table = table
erase_all (id ∷ ids) table = erase_all ids (erase id table)

-- The loop of a broadcast from its `i`-th round on: what was written, and who is dead.
unfoldable pub broadcast_loop :
    (ℕ → Bool) → (WebSocketConnection → Bool) → Bytes → ℕ → Table → Sent × List Bytes
broadcast_loop up sends frame i [] = ([], [])
broadcast_loop up sends frame i ((id, conn) ∷ table) = elim (up i) [
  | false ↦ ([], [])
  | true ↦
      let (sent, dead) = broadcast_loop up sends frame (i + 1) table in
      ((conn.socket, frame) ∷ sent, if sends conn then dead else id ∷ dead)
]

-- `broadcast_message` and `broadcast_message_safe`. They differ in how they wait for the lock and in
-- whether `up` also reads the shutdown flag. `up 0` is the read before the loop.
unfoldable pub broadcast_message :
    Bool → (ℕ → Bool) → (WebSocketConnection → Bool) → Bytes → Table → Table × Sent
unfolding broadcast_loop erase_all create_frame
broadcast_message locked up sends message table =
    if locked && up 0
    then (let (sent, dead) = broadcast_loop up sends (create_frame opcode_text message) 1 table in
        (erase_all dead table, sent))
    else (table, [])

-- `send_message_to_client` and `send_message_to_client_safe`.
unfoldable pub send_message_to_client :
    Bool → Bool → (WebSocketConnection → Bool) → Bytes → Bytes → Table → Table × Sent
unfolding lookup erase create_frame
send_message_to_client locked running sends id message table =
    if locked && running
    then elim (lookup id table) [
      | none ↦ (table, [])
      | some conn ↦ (
        if sends conn then table else erase id table,
        (conn.socket, create_frame opcode_text message) ∷ [],
      )
    ]
    else (table, [])

-- The loop of `ping_loop_safe` over the connections: those pinged get a new time.
unfoldable pub ping_pass :
    (ℕ → Bool) → (WebSocketConnection → Bool) → ℕ → ℕ → Table → Table × Sent × List Bytes
unfolding create_frame
ping_pass up sends now i [] = ([], [], [])
ping_pass up sends now i ((id, conn) ∷ table) = elim (up i) [
  | false ↦ ((id, conn) ∷ table, [], [])
  | true ↦
      let (pinged, sent, dead) = ping_pass up sends now (i + 1) table in
      (
        (id, if sends conn then record conn { last_ping = now } else conn) ∷ pinged,
        (conn.socket, create_frame opcode_ping []) ∷ sent,
        if sends conn then dead else id ∷ dead,
      )
]

-- One round of `ping_loop_safe` behind its wait.
unfoldable pub ping_round :
    Bool → (ℕ → Bool) → (WebSocketConnection → Bool) → ℕ → Table → Table × Sent
unfolding ping_pass erase_all
ping_round locked up sends now table =
    if locked && up 0
    then (let (pinged, sent, dead) = ping_pass up sends now 1 table in
        (erase_all dead pinged, sent))
    else (table, [])

-- `get_connection_count` and `get_connection_count_safe`.
unfoldable pub get_connection_count : Bool → Table → ℕ
get_connection_count locked table = if locked then length table else 0

-- `stop`: every socket is closed.
unfoldable pub stop : Table → Table × List ℕ
stop table = ([], map (λ entry. entry.1.socket) table)
