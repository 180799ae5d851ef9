-- ===== src/Server/Http2Connection.antt =====
-- The loops of src/core/server.cpp over the data of an HTTP/2 connection, with and without TLS. What
-- nghttp2 and the system calls return is given as arguments and rounds.
pub mod Handover
mod Tests
use web_server_http.Common.{
  ℕ, Bool, true, false, List, [], ◌∷◌, ◌++◌, ◌&&◌, ◌||◌, not, Option, none, some, if◌then◌else◌,
  is_empty, length, ◌==◌, Bytes, codes, equal,
}
use web_server_http.Http2.Transport.{process_data, connection_preface}

-- `peeked` is what `recv` sees of the next 24 bytes.
unfoldable pub detect_http2_preface : Bytes → Bool
unfolding equal
detect_http2_preface peeked = length peeked == 24 && equal peeked connection_preface

abbrev pub upgrade_response : Bytes
upgrade_response =
    codes "HTTP/1.1 101 Switching Protocols\r\nConnection: Upgrade\r\nUpgrade: h2c\r\n\r\n"

-- `sent` is what `send` returns, `none` if negative.
unfoldable pub send_http2_upgrade_response : Option ℕ → Bool
send_http2_upgrade_response none = false
send_http2_upgrade_response (some sent) = sent == length upgrade_response

-- What `recv` or `SSL_read` gives: some bytes, nothing yet, or the end of the stream or an error.
pub data Incoming : Type 0 where
  arrived : Bytes → Incoming
  nothing_yet over : Incoming

-- A round of the loop: the shutdown flag; what nghttp2 wants before and behind the read; the read, if
-- there is one; what `nghttp2_session_mem_recv` returns; and the results of the two flushes.
pub record Http2Round : Type 0 where
  pub shutdown_requested : Bool
  pub want_read : Bool
  pub want_write : Bool
  pub incoming : Incoming
  pub recv_result : Option ℕ
  pub flushed : Bool
  pub want_write_after : Bool
  pub flushed_after : Bool

pub data Http2End : Type 0 where
  closed waiting : Http2End

-- How a round is left.
pub data After : Type 0 where
  breaks continues : After

-- The second half of a round.
unfoldable pub write_half : Http2Round → After
write_half r = if r.want_write_after && not r.flushed_after then breaks else continues

-- The round from the read on: the bytes that nghttp2 is given and the new `preface_processed`. Without
-- TLS the loop is left where there is nothing to read yet.
unfoldable pub read_half : Bool → Bool → Http2Round → Incoming → Bytes × Bool × After
unfolding write_half process_data
read_half is_tls processed r over = ([], processed, breaks)
read_half is_tls processed r nothing_yet = ([], processed, if is_tls then continues else breaks)
read_half is_tls processed r (arrived chunk) =
    let p = process_data is_tls processed r.recv_result r.flushed chunk in
    (p.handed_over, p.preface_processed, elim p.result [ none ↦ breaks | some n ↦ write_half r ])

unfoldable pub http2_round : Bool → Bool → Http2Round → Bytes × Bool × After
unfolding read_half write_half
http2_round is_tls processed r =
    if r.shutdown_requested || not (r.want_read || r.want_write)
    then ([], processed, breaks)
    else if r.want_read
    then read_half is_tls processed r r.incoming
    else ([], processed, write_half r)

-- The bytes that nghttp2 is given, and whether the loop is left.
unfoldable pub http2_loop : Bool → Bool → List Http2Round → Bytes × Http2End
unfolding http2_round
http2_loop is_tls processed [] = ([], waiting)
http2_loop is_tls processed (r ∷ rs) =
    let (handed, processed', after) = http2_round is_tls processed r in
    let (later, last) = http2_loop is_tls processed' rs in
    elim after [ breaks ↦ (handed, closed) | continues ↦ (handed ++ later, last) ]

-- `initialized` is the result of `initialize`; `first_result` and `first_flushed` belong to the data
-- that was read before.
unfoldable pub handle_http2_connection :
    (initialized : Bool) → Bytes → Option ℕ → Bool → List Http2Round → Bytes × Http2End
unfolding http2_loop process_data
handle_http2_connection false initial first_result first_flushed rs = ([], closed)
handle_http2_connection true [] first_result first_flushed rs = http2_loop false false rs
handle_http2_connection true (c ∷ initial) first_result first_flushed rs =
    let p = process_data false false first_result first_flushed (c ∷ initial) in
    let (later, last) = http2_loop false p.preface_processed rs in
    elim p.result [ none ↦ (p.handed_over, closed) | some n ↦ (p.handed_over ++ later, last) ]

unfoldable pub handle_tls_http2_connection :
    (initialized : Bool) → List Http2Round → Bytes × Http2End
unfolding http2_loop
handle_tls_http2_connection initialized rs =
    if initialized then http2_loop true false rs else ([], closed)
