-- ===== src/WebSocket/Frame/Overflow.antt =====
-- The size check of `parse_frame`, whose sum wraps around.

use native.Mathlib.Nat.{pow-suc}
use web_server_http.Common.{
  ℕ, ◌+◌, ◌*◌, ◌^◌, ◌≤◌, ◌<◌, true, [], ◌∷◌, ◌++◌, ◌≡◌, All, ◌↔◌, some, length, take-append,
  drop-append, length-append, Bytes, threw, length_error, arith,
}
use web_server_http.WebSocket.Frame.{
  WebSocketFrame, word_size, big_endian, read_length, read_payload, read_mask, parse_frame,
}
use web_server_http.WebSocket.Frame.Masking.{IsByte}
use web_server_http.WebSocket.Frame.RoundTrip.{read_frame}

big_endian-lt :
    (m acc : ℕ) (bs : Bytes) → acc < m → All IsByte bs → big_endian acc bs < m * 256 ^ length bs
unfolding big_endian
big_endian-lt m acc [] h k = omega arith
big_endian-lt m acc (b ∷ bs) h k =
    rw (pow-suc 256 (length bs))
      (omega (arith, big_endian-lt (m * 256) (acc * 256 + b) bs (omega (arith, k.0)) k.1))

read_payload_throws :
    (frame : WebSocketFrame) (len start : ℕ) (body : Bytes)
    → len < word_size
    → start ≤ 14
    → length body < 2 ^ 62
    → (read_payload frame len start body ≡ threw length_error) ↔ (word_size ≤ start + len)
unfolding read_payload
read_payload_throws frame len start body h k r = ground arith

-- A masked frame with a 64-bit length and fewer than 2 ^ 62 bytes of data makes `parse_frame` throw
-- exactly if the length and the 14 bytes of the header add up to 2 ^ 64 or more.
pub parse_frame_throws_iff :
    (b0 : ℕ) (field key body : Bytes)
    → length field ≡ 8
    → length key ≡ 4
    → All IsByte field
    → length body < 2 ^ 62
    → (parse_frame (b0 ∷ 255 ∷ (field ++ (key ++ body))) ≡ threw length_error)
      ↔ (word_size ≤ 14 + big_endian 0 field)
parse_frame_throws_iff b0 field key body h k fb r =
    rw step (read_payload_throws frame (big_endian 0 field) 14 body bound (omega arith) r)
  where
    frame : WebSocketFrame
    frame = read_frame b0 true (big_endian 0 field) (some key) []

    bound : big_endian 0 field < word_size
    bound = omega (arith, rw h at (big_endian-lt 1 0 field (omega arith) fb))

    step :
        parse_frame (b0 ∷ 255 ∷ (field ++ (key ++ body)))
        ≡ read_payload frame (big_endian 0 field) 14 body
    step =
        unfold parse_frame read_length read_mask in
        ground (
          arith,
          rw h at (take-append field (key ++ body)),
          rw h at (drop-append field (key ++ body)),
          rw k at (take-append key body),
          rw k at (drop-append key body),
          length-append field (key ++ body),
          length-append key body,
        )
