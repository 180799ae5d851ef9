-- ===== src/Server/State.antt =====
-- The members of `WebServer` that its request handling reads and writes, the socket list of
-- `ResourceManager`, and the operations on the connection table. Times are seconds of the steady clock.
use web_server_http.Common.{
  ◌/◌, ℕ, ◌+◌, ◌-◌, Bool, false, List, [], ◌∷◌, ◌++◌, not, ◌||◌, none, some, ltb, ◌==◌,
  if◌then◌else◌, length, Bytes, codes,
}
use web_server_http.Common.Dict.{lookup, insert, erase, nat_key}

pub record Server : Type 0 where
  pub keep_alive_enabled : Bool
  pub connection_timeout : ℕ
  pub connection_timestamps : List (ℕ × ℕ)
  pub sockets : List ℕ
  pub users_data : List (List (Bytes × Bytes))
  -- The 32 bits of an `int`.
  pub next_user_id : ℕ
  pub total_requests : ℕ
  pub http2_enabled : Bool
  pub tls_enabled : Bool

abbrev pub user : Bytes → Bytes → Bytes → List (Bytes × Bytes)
user id name email = (codes "email", email) ∷ (codes "id", id) ∷ (codes "name", name) ∷ []

-- The constructor, with `initialize_sample_data`.
abbrev pub new_server : Server
new_server = record {
  keep_alive_enabled = false;
  connection_timeout = 5;
  connection_timestamps = [];
  sockets = [];
  users_data =
      user (codes "1") (codes "John Doe") (codes "john.doe@example.com")
      ∷ user (codes "2") (codes "Jane Smith") (codes "jane.smith@example.com")
      ∷ user (codes "3") (codes "Alice Johnson") (codes "alice.johnson@example.com")
      ∷ [];
  next_user_id = 4;
  total_requests = 0;
  http2_enabled = false;
  tls_enabled = false;
}

unfoldable pub enable_keep_alive : Bool → ℕ → Server → Server
enable_keep_alive enable timeout_seconds s = record s {
  keep_alive_enabled = enable;
  connection_timeout = timeout_seconds;
}

unfoldable pub enable_http2 : Bool → Server → Server
enable_http2 enable s = record s { http2_enabled = enable }

-- ResourceManager::register_socket, and its `std::remove` of a socket.
unfoldable pub register_socket : ℕ → Server → Server
register_socket socket s = record s { sockets = s.sockets ++ socket ∷ [] }

unfoldable pub remove_socket : ℕ → List ℕ → List ℕ
remove_socket socket [] = []
remove_socket socket (x ∷ xs) =
    let rest = remove_socket socket xs in if x == socket then rest else x ∷ rest

unfoldable pub unregister_socket : ℕ → Server → Server
unfolding remove_socket
unregister_socket socket s = record s { sockets = remove_socket socket s.sockets }

-- `close_all_sockets`: the sockets that are shut down and closed, in order.
unfoldable pub close_all_sockets : Server → Server × List ℕ
close_all_sockets s = (record s { sockets = [] }, s.sockets)

unfoldable pub add_connection_safe : ℕ → ℕ → Server → Server
unfolding insert
add_connection_safe now socket s = record s {
  connection_timestamps = insert socket now s.connection_timestamps;
}

unfoldable pub update_connection_timestamp_safe : ℕ → ℕ → Server → Server
unfolding lookup insert
update_connection_timestamp_safe now socket s = elim (lookup socket s.connection_timestamps) [
  | none ↦ s
  | some _ ↦ record s { connection_timestamps = insert socket now s.connection_timestamps }
]

unfoldable pub remove_connection_safe : ℕ → Server → Server
unfolding erase
remove_connection_safe socket s = record s {
  connection_timestamps = erase socket s.connection_timestamps;
}

-- The sockets whose age in whole seconds exceeds the timeout. Times are in nanoseconds.
unfoldable pub expired_connections : ℕ → ℕ → List (ℕ × ℕ) → List ℕ
expired_connections now timeout [] = []
expired_connections now timeout ((socket, seen) ∷ m) =
    let rest = expired_connections now timeout m in
    if ltb timeout ((now - seen) / 1000000000) then socket ∷ rest else rest

unfoldable pub erase_connections : List ℕ → List (ℕ × ℕ) → List (ℕ × ℕ)
unfolding erase
erase_connections [] m = m
erase_connections (socket ∷ rest) m = erase_connections rest (erase socket m)

unfoldable pub unregister_all : List ℕ → Server → Server
unfolding unregister_socket
unregister_all [] s = s
unregister_all (socket ∷ rest) s = unregister_all rest (unregister_socket socket s)

-- `manage_connections`, with the sockets that it closes. `locked` is the result of `try_lock`.
unfoldable pub manage_connections : Bool → Bool → ℕ → Server → Server × List ℕ
unfolding expired_connections erase_connections unregister_all
manage_connections shutdown_requested locked now s =
    if not s.keep_alive_enabled || shutdown_requested || not locked
    then (s, [])
    else let expired = expired_connections now s.connection_timeout s.connection_timestamps in
      let kept = record s {
        connection_timestamps = erase_connections expired s.connection_timestamps;
      } in
      (unregister_all expired kept, expired)

-- `get_active_connections`, with the count that the WebSocket handler gives.
unfoldable pub get_active_connections : Bool → ℕ → Server → ℕ
get_active_connections locked websocket_count s =
    (if locked then length s.connection_timestamps else 0) + websocket_count
