-- ===== src/Http2/Transport.antt =====
-- `process_data` and `flush_output`. nghttp2 and the socket are arguments: what they return.
use web_server_http.Common.{
  ℕ, ◌+◌, Bool, true, false, [], ◌&&◌, not, Option, none, some, if◌then◌else◌, is_empty, take, drop,
  Bytes, codes, is_prefix,
}

-- HTTP2_CONNECTION_PREFACE.
abbrev pub connection_preface : Bytes
connection_preface = codes "PRI * HTTP/2.0\r\n\r\nSM\r\n\r\n"

-- What a call returns (`none` for -1), the new `preface_processed`, and what nghttp2 was given.
pub record Processed : Type 0 where
  pub result : Option ℕ
  pub preface_processed : Bool
  pub handed_over : Bytes

-- `recv_result` is what `nghttp2_session_mem_recv` returns, `none` if negative; `flushed` is the
-- result of `flush_output`.
unfoldable pub process_data : Bool → Bool → Option ℕ → Bool → Bytes → Processed
unfolding is_prefix
process_data is_tls processed recv_result flushed input =
    let at_preface = not is_tls && (not processed && is_prefix connection_preface input) in
    let behind = if at_preface then drop 24 input else input in
    let seen : Bool = if is_tls then true else if at_preface then true else processed in
    let counted : ℕ = if not is_tls && seen then 24 else 0 in
    if is_empty behind
    then record {
      result = some (if at_preface then 24 else 0);
      preface_processed = seen;
      handed_over = [];
    }
    else record {
      result = elim recv_result [
        | none ↦ none
        | some n ↦ if flushed then some (n + counted) else none
      ];
      preface_processed = seen;
      handed_over = behind;
    }

-- What the socket does with a write: it takes so many bytes, or the whole
-- buffer where that is shorter, would block (TLS only), or fails.
pub data Write : Type 0 where
  took : ℕ → Write
  blocked broken : Write

-- The result of `flush_output`, the buffer after it, and what went out.
unfoldable pub flush_output : Bool → Write → Bytes → Bool × Bytes × Bytes
flush_output session_ok write buffer =
    if not session_ok
    then (false, buffer, [])
    else if is_empty buffer
    then (true, buffer, [])
    else elim write [
      | took n ↦ (true, [], take n buffer)
      | blocked ↦ (true, buffer, [])
      | broken ↦ (false, buffer, [])
    ]
