-- ===== src/WebSocket/Background.antt =====
-- The background threads of src/handlers/websocket_handler.cpp, as loops over rounds: what the waits,
-- the locks and the reads of `running` and of the shutdown flag give. And `send_frame` with its callers,
-- and `record_request`.
use web_server_http.Common.{
  ℕ, ◌+◌, ◌%◌, Bool, true, false, List, [], ◌∷◌, ◌++◌, ◌&&◌, ◌||◌, not, Option, none, some,
  if◌then◌else◌, length, ◌==◌, Bytes,
}
use web_server_http.Metrics.{PerformanceMetrics}
use web_server_http.Metrics
use web_server_http.WebSocket.Connections.{
  WebSocketConnection, Table, Sent, broadcast_message, ping_round, get_connection_count,
}
use web_server_http.WebSocket.Frame.{create_frame, opcode_ping, opcode_pong}

-- `sent` is what `send` returns, `none` if negative.
unfoldable pub send_frame : ℕ → Bytes → Option ℕ → Bool
unfolding create_frame
send_frame opcode payload none = false
send_frame opcode payload (some sent) = sent == length (create_frame opcode payload)

unfoldable pub send_ping : Option ℕ → Bool
unfolding send_frame
send_ping sent = send_frame opcode_ping [] sent

unfoldable pub send_pong : Option ℕ → Bool
unfolding send_frame
send_pong sent = send_frame opcode_pong [] sent

-- `record_request` of the handler.
unfoldable pub record_request :
    ℕ → Bytes → Bytes → ℕ → ℕ → Option PerformanceMetrics → Option PerformanceMetrics
record_request now method path status_code response_time_ms none = none
record_request now method path status_code response_time_ms (some m) =
    some (Metrics.record_request now method path status_code response_time_ms m)

-- A round of a broadcast loop: whether it is left behind the wait; whether the lock is had for the
-- count; the reads before the two groups of broadcasts; for each of the three broadcasts whether its
-- lock is had and what its reads give; and the three texts of the metrics.
pub record Tick : Type 0 where
  pub stopped : Bool
  pub counted : Bool
  pub system_up : Bool
  pub rate_up : Bool
  pub locked : ℕ → Bool
  pub up : ℕ → ℕ → Bool
  pub system_text : Bytes
  pub basic_text : Bytes
  pub rate_text : Bytes

module _ (sends : WebSocketConnection → Bool) (has_metrics : Bool) where
  -- The first group: `broadcast_loop_safe` sends the basic metrics as well.
  unfoldable pub system_group : Bool → Tick → Table → Table × Sent
  system_group false t table = broadcast_message (t.locked 0) (t.up 0) sends t.system_text table
  system_group true t table =
      let (table1, sent1) = broadcast_message (t.locked 0) (t.up 0) sends t.system_text table in
      let (table2, sent2) = broadcast_message (t.locked 1) (t.up 1) sends t.basic_text table1 in
      (table2, sent1 ++ sent2)

  -- The second group.
  unfoldable pub rate_group : Bool → Tick → Table → Table × Sent
  rate_group false t table = (table, [])
  rate_group true t table = broadcast_message (t.locked 2) (t.up 2) sends t.rate_text table

  -- A round by its tests: whether the loop is left, whether there is no client, and whether the groups
  -- of broadcasts are sent. The static counter, and whether there is another round.
  unfoldable pub tick_by :
      (leaves nobody system rate : Bool) → Bool → Tick → ℕ → Table → Table × Sent × ℕ × Bool
  unfolding rate_group
  tick_by true nobody system rate safe t counter table = (table, [], counter, false)
  tick_by false true system rate safe t counter table = (table, [], counter, true)
  tick_by false false false rate safe t counter table =
      let (table1, sent) = rate_group rate t table in (table1, sent, counter + 1, true)
  tick_by false false true rate safe t counter table =
      let (table1, sent1) = system_group safe t table in
      let (table2, sent2) = rate_group rate t table1 in (table2, sent1 ++ sent2, counter + 1, true)

  unfoldable pub broadcast_tick : Bool → Tick → ℕ → Table → Table × Sent × ℕ × Bool
  unfolding get_connection_count
  broadcast_tick safe t counter table =
      tick_by t.stopped (get_connection_count t.counted table == 0) (has_metrics && t.system_up)
        ((counter + 1) % 5 == 0 && (has_metrics && t.rate_up)) safe t counter table

  -- `broadcast_loop`, and `broadcast_loop_safe` if `safe`.
  unfoldable pub broadcast_ticks : Bool → List Tick → ℕ → Table → Table × Sent × ℕ
  unfolding broadcast_tick
  broadcast_ticks safe [] counter table = (table, [], counter)
  broadcast_ticks safe (t ∷ ts) counter table =
      let (table1, sent, counter1, again) = broadcast_tick safe t counter table in
      let (table2, later, counter2) = broadcast_ticks safe ts counter1 table1 in
      if again then (table2, sent ++ later, counter2) else (table1, sent, counter1)

-- A round of `ping_loop_safe`: whether it is left behind the wait, the lock, the reads, the sends and
-- the time.
pub record PingTick : Type 0 where
  pub stopped : Bool
  pub locked : Bool
  pub up : ℕ → Bool
  pub sends : WebSocketConnection → Bool
  pub now : ℕ

-- A flag that is down where the lock is had ends the loop.
unfoldable pub ping_ticks : List PingTick → Table → Table × Sent
unfolding ping_round
ping_ticks [] table = (table, [])
ping_ticks (t ∷ ts) table =
    let (table1, sent) = ping_round t.locked t.up t.sends t.now table in
    let (table2, later) = ping_ticks ts table1 in
    if t.stopped || (t.locked && not (t.up 0)) then (table, []) else (table2, sent ++ later)

-- `ping_loop`, the older loop: its rounds differ from those of `ping_loop_safe` only in how they wait and
-- in the flags that they read.
unfoldable pub ping_loop : List PingTick → Table → Table × Sent
unfolding ping_ticks
ping_loop ts table = ping_ticks ts table
