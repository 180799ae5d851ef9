-- ===== src/WebSocket/Ticks.antt =====
-- What `broadcast_loop_safe` of src/handlers/websocket_handler.cpp sends.
use Prim.{Unit}
use web_server_http.Common.{
  ℕ, ◌+◌, ◌%◌, ◌<◌, Bool, true, false, List, [], ◌∷◌, ◌≡◌, refl, sym, ap, subst, ap₂, map, ◌++◌,
  if◌then◌else◌, ◌∙◌, ◌&&◌, Bool-cases, inl, inr, length, ◌==◌, Bytes, arith,
}
use web_server_http.WebSocket.Background.{
  Tick, rate_group, tick_by, system_group, broadcast_tick, broadcast_ticks,
}
use web_server_http.WebSocket.Connections.{
  WebSocketConnection, Table, Sent, broadcast_loop, broadcast_message, erase_all,
  get_connection_count,
}
use web_server_http.WebSocket.Frame.{create_frame, opcode_text}

-- The handler runs and every lock is had.
abbrev pub Smooth : Tick → Type 0
Smooth t =
    (t.stopped ≡ false)
    × (t.counted ≡ true)
    × (t.system_up ≡ true)
    × (t.rate_up ≡ true)
    × ((i : ℕ) → t.locked i ≡ true)
    × ((i j : ℕ) → t.up i j ≡ true)

unfoldable pub AllSmooth : List Tick → Type 0
AllSmooth [] = Unit
AllSmooth (t ∷ ts) = Smooth t × AllSmooth ts

-- A text to each client of the table.
abbrev pub to_all : Bytes → Table → Sent
to_all text table = map (λ entry. (entry.1.socket, create_frame opcode_text text)) table

-- The rate, where it goes out.
abbrev rate_to_all : Bool → Bytes → Table → Sent
rate_to_all false text table = []
rate_to_all true text table = to_all text table

-- What a round sends that makes the counter `count`.
abbrev pub in_round : ℕ → Tick → Table → Sent
in_round count t table =
    (to_all t.system_text table ++ to_all t.basic_text table)
    ++ (if count % 5 == 0 then to_all t.rate_text table else [])

-- What the rounds send from a counter on.
unfoldable pub in_rounds : ℕ → List Tick → Table → Sent
in_rounds counter [] table = []
in_rounds counter (t ∷ ts) table =
    in_round (counter + 1) t table ++ in_rounds (counter + 1) ts table

module _ (sends : WebSocketConnection → Bool)
    (all_sent : (c : WebSocketConnection) → sends c ≡ true) where
  broadcast_loop-all :
      (up : ℕ → Bool) (frame : Bytes) (i : ℕ) (table : Table)
      → ((j : ℕ) → up j ≡ true)
      → ((broadcast_loop up sends frame i table).0 ≡ map (λ entry. (entry.1.socket, frame)) table)
        × ((broadcast_loop up sends frame i table).1 ≡ [])
  unfolding broadcast_loop
  broadcast_loop-all up frame i [] h = (refl, refl)
  broadcast_loop-all up frame i ((id, conn) ∷ table) h =
      let (sent, dead) = broadcast_loop-all up frame (i + 1) table h in
      rw (h i, all_sent conn, broadcast_loop) (ap (λ xs. (conn.socket, frame) ∷ xs) sent, dead)

  broadcast_message-all :
      (locked : Bool) (up : ℕ → Bool) (text : Bytes) (table : Table)
      → locked ≡ true
      → ((j : ℕ) → up j ≡ true)
      → ((broadcast_message locked up sends text table).0 ≡ table)
        × ((broadcast_message locked up sends text table).1 ≡ to_all text table)
  unfolding broadcast_message erase_all
  broadcast_message-all locked up text table l h =
      let (sent, dead) = broadcast_loop-all up (create_frame opcode_text text) 1 table h in
      rw (l, h 0, broadcast_message, dead) (refl, sent)

  -- One round on a table that is not empty.
  system_group-all :
      (t : Tick) (table : Table)
      → Smooth t
      → ((system_group sends true true t table).0 ≡ table)
        × ((system_group sends true true t table).1
            ≡ to_all t.system_text table ++ to_all t.basic_text table)
  unfolding system_group
  system_group-all t table (a, b, c, d, l, u) =
      let (same, n) = broadcast_message-all (t.locked 0) (t.up 0) t.system_text table (l 0) (u 0) in
      let (same', n') =
        broadcast_message-all (t.locked 1) (t.up 1) t.basic_text table (l 1) (u 1) in
      rw (same) (same', ap₂ ◌++◌ n n')

  -- All that a round on a table does.
  abbrev Sends : Sent → ℕ → Table → Table × Sent × ℕ × Bool → Type 0
  Sends frames counter table (after, sent, counter', again) =
      (after ≡ table) × (sent ≡ frames) × (counter' ≡ counter + 1) × (again ≡ true)

  rate_group-all :
      (rate : Bool) (t : Tick) (table : Table)
      → Smooth t
      → ((rate_group sends true rate t table).0 ≡ table)
        × ((rate_group sends true rate t table).1 ≡ rate_to_all rate t.rate_text table)
  unfolding rate_group
  rate_group-all false t table s = (refl, refl)
  rate_group-all true t table (a, b, c, d, l, u) =
      broadcast_message-all (t.locked 2) (t.up 2) t.rate_text table (l 2) (u 2)

  -- The frames of a round, by whether the rate goes out.
  abbrev round_by : Bool → Tick → Table → Sent
  round_by rate t table =
      (to_all t.system_text table ++ to_all t.basic_text table)
      ++ rate_to_all rate t.rate_text table

  tick_by-all :
      (rate : Bool) (t : Tick) (counter : ℕ) (table : Table)
      → Smooth t
      → Sends
          (round_by rate t table)
          counter
          table
          (tick_by sends true false false true rate true t counter table)
  unfolding tick_by
  tick_by-all rate t counter table s =
      let (same, n) = system_group-all t table s in
      let (same', n') = rate_group-all rate t table s in
      rw (same) (same', ap₂ ◌++◌ n n', refl, refl)

  broadcast_tick-all :
      (t : Tick) (counter : ℕ) (table : Table)
      → 0 < length table
      → Smooth t
      → Sends
          (round_by ((counter + 1) % 5 == 0) t table)
          counter
          table
          (broadcast_tick sends true true t counter table)
  unfolding broadcast_tick get_connection_count
  broadcast_tick-all t counter table some_client (a, b, c, d, l, u) =
      let fifth = (counter + 1) % 5 == 0 in
      let nobody : (get_connection_count t.counted table == 0) ≡ false =
        ap (λ k. get_connection_count k table == 0) b ∙ ground (arith, some_client) in
      let rate : fifth && t.rate_up ≡ fifth = ground (arith, d) in
      let tests =
        ap
          (λ x.
            tick_by sends true x (get_connection_count t.counted table == 0) t.system_up
              (fifth && t.rate_up) true t counter table)
          a
        ∙ (ap
              (λ x.
                tick_by sends true false x t.system_up (fifth && t.rate_up) true t counter table)
              nobody
            ∙ (ap (λ x. tick_by sends true false false x (fifth && t.rate_up) true t counter table)
                  c
                ∙ ap (λ x. tick_by sends true false false true x true t counter table) rate)) in
      subst (Sends (round_by fifth t table) counter table) (sym tests)
        (tick_by-all fifth t counter table (a, b, c, d, l, u))

  round_by-in_round :
      (counter : ℕ) (t : Tick) (table : Table)
      → round_by ((counter + 1) % 5 == 0) t table ≡ in_round (counter + 1) t table
  round_by-in_round counter t table = elim (Bool-cases ((counter + 1) % 5 == 0)) [
    | inl q ↦ rw q refl
    | inr q ↦ rw q refl
  ]

  -- While the handler runs, has its locks and has metrics, and every send succeeds, `broadcast_loop_safe`
  -- keeps the table and counts its rounds, and sends each client, in the order of the table, the system
  -- metrics and the basic metrics in every round and the request rate behind them in the rounds that
  -- make the counter a multiple of five, if there is a client.
  pub broadcast_ticks_lem :
      (ts : List Tick) (counter : ℕ) (table : Table)
      → 0 < length table
      → AllSmooth ts
      → let (after, sent, counter') = broadcast_ticks sends true true ts counter table in
        (after ≡ table) × (sent ≡ in_rounds counter ts table) × (counter' ≡ counter + length ts)
  unfolding broadcast_ticks AllSmooth in_rounds
  broadcast_ticks_lem [] counter table h s = (refl, refl, omega arith)
  broadcast_ticks_lem (t ∷ ts) counter table h (s, ss) =
      let (same, n, count, again) = broadcast_tick-all t counter table h s in
      let (same', n', count') = broadcast_ticks_lem ts (counter + 1) table h ss in
      rw (again, same, count)
        (same', ap₂ ◌++◌ (n ∙ round_by-in_round counter t table) n', count' ∙ omega arith)
