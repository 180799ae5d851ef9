-- ===== src/WebSocket/Tests.antt =====
-- Runs of the frame code, and the theorems on frames and connections at concrete inputs.
use Prim.{tt}
use web_server_http.Common.{
  ℕ, ◌+◌, ◌≤◌, Bool, true, false, [], ◌∷◌, ◌++◌, ◌≡◌, ◌↔◌, refl, none, some, Option, if◌then◌else◌,
  map, Bytes, List, length, codes, returned, threw, length_error, arith, equal,
}
use web_server_http.Common.Dict.{lookup, bytes_key}
use web_server_http.WebSocket.Background.{Tick, broadcast_ticks}
use web_server_http.WebSocket.Ticks.{Smooth, AllSmooth, in_rounds, broadcast_ticks_lem}
use web_server_http.WebSocket.Broadcast.{distinct, unreachable, broadcast_message_lem}
use web_server_http.WebSocket.Connections.{WebSocketConnection, Table, broadcast_message}
use web_server_http.WebSocket.Frame.{
  word_size, big_endian, read_length, key_byte, unmask, unmasked, read_payload, read_mask,
  parse_frame, create_frame, opcode_text,
}
use web_server_http.WebSocket.Frame.Overflow.{parse_frame_throws_iff}
use web_server_http.WebSocket.Frame.Client.{client_frame, parse_frame-client_frame}
use web_server_http.WebSocket.Frame.RoundTrip.{parse_frame-create_frame}
use web_server_http.WebSocket.Leaving.{Own, session-Own}
use web_server_http.WebSocket.Session.{Round, received, closed, session}

-- A masked "Hello", as in RFC 6455, section 5.7.
masked_hello :
    parse_frame (0x81 ∷ 0x85 ∷ 0x37 ∷ 0xfa ∷ 0x21 ∷ 0x3d ∷ 0x7f ∷ 0x9f ∷ 0x4d ∷ 0x51 ∷ 0x58 ∷ [])
    ≡ returned (record {
      fin = true;
      opcode = 1;
      masked = some true;
      payload_length = some 5;
      mask = some (0x37 ∷ 0xfa ∷ 0x21 ∷ 0x3d ∷ []);
      payload = codes "Hello";
    })
unfolding parse_frame read_mask read_payload unmasked unmask read_length big_endian key_byte
masked_hello = refl

parse_frame-create_frame_example :
    parse_frame (create_frame 1 (codes "hi"))
    ≡ returned (record {
      fin = true;
      opcode = 1;
      masked = some false;
      payload_length = some 2;
      mask = none;
      payload = codes "hi";
    })
parse_frame-create_frame_example =
    parse_frame-create_frame 1 (codes "hi") (omega arith) (omega arith)

parse_frame-client_frame_example :
    parse_frame (client_frame 1 7 8 9 10 (codes "hi"))
    ≡ returned (record {
      fin = true;
      opcode = 1;
      masked = some true;
      payload_length = some 2;
      mask = some (7 ∷ 8 ∷ 9 ∷ 10 ∷ []);
      payload = codes "hi";
    })
parse_frame-client_frame_example =
    parse_frame-client_frame 1 7 8 9 10 (codes "hi") (omega arith) (omega arith)
      (omega arith, (omega arith, (omega arith, (omega arith, tt))))
      (omega arith, (omega arith, tt))

abbrev all_ones : Bytes
all_ones = 255 ∷ 255 ∷ 255 ∷ 255 ∷ 255 ∷ 255 ∷ 255 ∷ 255 ∷ []

parse_frame_throws_iff_example :
    (parse_frame (0x81 ∷ 255 ∷ (all_ones ++ ((1 ∷ 2 ∷ 3 ∷ 4 ∷ []) ++ codes "hi")))
      ≡ threw length_error)
    ↔ (word_size ≤ 14 + big_endian 0 all_ones)
parse_frame_throws_iff_example =
    parse_frame_throws_iff 0x81 all_ones (1 ∷ 2 ∷ 3 ∷ 4 ∷ []) (codes "hi") refl refl
      (
        omega arith,
        (
          omega arith,
          (
            omega arith,
            (omega arith, (omega arith, (omega arith, (omega arith, (omega arith, tt))))),
          ),
        ),
      )
      (omega arith)

abbrev connection : ℕ → Bytes → WebSocketConnection
connection socket id = record {
  socket = socket;
  client_id = id;
  last_ping = 0;
  is_authenticated = false;
}

abbrev two_clients : Table
two_clients = (codes "a", connection 4 (codes "a")) ∷ (codes "b", connection 5 (codes "b")) ∷ []

-- Client "b" cannot be reached.
abbrev reaches_a : WebSocketConnection → Bool
reaches_a conn = equal conn.client_id (codes "a")

broadcast_message_lem_example :
    let (after, sent) = broadcast_message true (λ _. true) reaches_a (codes "hi") two_clients in
    (sent ≡ map (λ entry. (entry.1.socket, create_frame opcode_text (codes "hi"))) two_clients)
    × (lookup (codes "b") after ≡ (
        if unreachable reaches_a (lookup (codes "b") two_clients)
        then none
        else lookup (codes "b") two_clients))
unfolding distinct lookup equal
broadcast_message_lem_example =
    broadcast_message_lem reaches_a (codes "hi") (codes "b") two_clients refl

abbrev working : Round
working = record { running = true; locked = true; send_ok = true }

abbrev no_documents : ℕ → Option Bytes
no_documents n = none

session-Own_example : Own (codes "a") two_clients (
    session no_documents 4
      (codes "a")
      two_clients
      (received (0x89 ∷ 0x00 ∷ []) working ∷ closed ∷ []))
session-Own_example =
    session-Own no_documents 4 (codes "a") two_clients
      (received (0x89 ∷ 0x00 ∷ []) working ∷ closed ∷ [])

-- A round in which nothing goes wrong.
abbrev tick : Tick
tick = record {
  stopped = false;
  counted = true;
  system_up = true;
  rate_up = true;
  locked = λ i. true;
  up = λ i j. true;
  system_text = codes "s";
  basic_text = codes "b";
  rate_text = codes "r";
}

abbrev three_rounds : List Tick
three_rounds = tick ∷ tick ∷ tick ∷ []

tick-Smooth : Smooth tick
tick-Smooth = (refl, refl, refl, refl, λ i. refl, λ i j. refl)

broadcast_ticks_lem_example :
    let (after, sent, counter') =
      broadcast_ticks (λ c. true) true true three_rounds 3 two_clients in
    (after ≡ two_clients)
    × (sent ≡ in_rounds 3 three_rounds two_clients)
    × (counter' ≡ 3 + length three_rounds)
unfolding AllSmooth
broadcast_ticks_lem_example =
    broadcast_ticks_lem (λ c. true) (λ c. refl) three_rounds 3 two_clients (omega arith)
      (tick-Smooth, (tick-Smooth, (tick-Smooth, tt)))
