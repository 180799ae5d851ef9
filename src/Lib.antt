-- ===== src/Lib.antt =====
-- A model of the multi-threaded HTTP/1.1, HTTP/2 and WebSocket server of this repository, and theorems
-- about it. Every component is a set of functions on explicit state: the object after a call is part
-- of the result, a method that may throw returns a `Try`, and what the system, the clock or another
-- thread decides is given as an argument or as a list of events.
--
-- Parts, and the files that model them:
--   Common        byte strings, lists and maps as the standard library has them; `std::stoi`,
--                 `std::stoul` and `std::to_string`; results of code that may throw.
--   HttpRequest   src/network/http_request.cpp, include/network/http_request.h. `parse` and its helpers
--                 on the object `HttpRequest`; HttpRequest/Decode is `url_decode`. HttpRequest/Lines,
--                 HttpRequest/Fields, HttpRequest/Queries and HttpRequest/Bodies are on the pieces of a text.
--   Json          src/handlers/json_handler.cpp, include/handlers/json_handler.h. Json/Value has the
--                 values, Json/Parse the parser, Json/Print `to_string`, Json/Responses the builders;
--                 Json/ParseSteps, Json/NumberText, Json/Pieces and Json/Ordered are on the pieces of a text.
--                 A `double` is a parameter with `stod` and its printed forms (record Double).
--   WebSocket     src/handlers/websocket_handler.cpp, include/handlers/websocket_handler.h.
--                 WebSocket/Frame is `parse_frame` and `create_frame`, WebSocket/Handshake the upgrade,
--                 WebSocket/Connections the table with broadcasts and pings, WebSocket/Session the loop
--                 of a connection, WebSocket/Background the background threads.
--   Metrics       the class PerformanceMetrics of the same two files; Metrics/System measures memory and
--                 processor time, Metrics/MetricsText and Metrics/RateText are on the texts.
--   FileHandler   src/handlers/file_handler.cpp; the file system is a record of functions.
--   ThreadPool    src/core/thread_pool.cpp, include/core/shutdown_coordinator.h: a machine whose events
--                 (submissions, worker steps, stops) come in any order.
--   Http2         src/handlers/http2_handler.cpp, include/handlers/http2_handler.h. Http2/Callbacks has the
--                 nghttp2 callbacks, Http2/Requests the answers and server push, Http2/Transport the
--                 preface and `flush_output`, Http2/Priority the stream priorities, Http2/Session a
--                 handler with its output buffer over calls of `process_data`, and Http2/Logging the lines
--                 that are logged and `get_content_type`.
--   Server        src/core/server.cpp, include/core/server.h. Server/State is the object, Server/Response
--                 the texts (with Server/Framing and Server/ResponseRead), Server/Api the endpoints,
--                 Server/Routing `handle_request`, Server/Io reading,
--                 sending and the loop over a connection's requests, Server/Alpn the ALPN callback,
--                 Server/Tls the OpenSSL context, the SSL object of a connection and the loop over TLS,
--                 Server/Http2Connection the loops that feed the HTTP/2 handler, Server/Clients the task
--                 of a client and Server/ClientTask the older one, Server/Accept `initialize`, `start`
--                 and the accept loop, Server/Collecting the metrics thread, Server/Cleanup `cleanup`.
--   Main          src/core/main.cpp: the command line, `main`, the reports of Main/Monitor and, in
--                 Server/Accept, the signal handler.
-- The server reads a text (Server/Io), parses it (HttpRequest), routes it (Server/Routing) to files
-- (FileHandler), to the API (Server/Api, Json) or to a WebSocket session, and records it (Metrics). The
-- accept loop (Server/Accept) puts each socket in the queue of the pool (ThreadPool) as a task, which
-- Server/Clients serves with TLS or without.
--
-- Bounds and fuel: bytes are numbers below 256; sizes wrap at 2 ^ 64 where the code adds them, and the
-- ids of users at 2 ^ 32; times are nanoseconds of the steady clock. The JSON
-- parser runs on 4 * length + 4 steps, the nested pushes of HTTP/2 on depth 3, and the ALPN loops on
-- the length of the list: a call of the JSON parser that takes no byte has at most three such calls
-- below it, a page pushes pages that push only other files, and a round of ALPN takes a byte. The loops
-- over sockets run over finite lists of events.
--
-- Not modelled: the inside of OpenSSL and nghttp2 (what their calls return is an argument or an event;
-- SHA-1 and base64 are functions that are given), the texts that `main` and the log print, fixed
-- HTML texts, the start of the WebSocket threads, and waiting with time limits, of which only the
-- outcome is an event.

pub mod Common
pub mod HttpRequest
pub mod Json
pub mod WebSocket
pub mod FileHandler
pub mod Metrics
pub mod ThreadPool
pub mod Http2
pub mod Server
pub mod Main
