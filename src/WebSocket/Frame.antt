-- ===== src/WebSocket/Frame.antt =====
-- `parse_frame` and `create_frame`. Bytes are numbers below 256; a shift by 8 * k is a division by
-- 256 ^ k, and a mask of low bits is a remainder.
pub mod Length
pub mod Masking
pub mod RoundTrip
pub mod Client
pub mod Overflow
use Prim.Native.Nat.{bit_or, bit_xor}
use web_server_http.Common.{
  ℕ, zero, suc, ◌+◌, ◌-◌, ◌*◌, ◌/◌, ◌%◌, ◌^◌, Bool, false, [], ◌∷◌, ◌++◌, Option, none, some, ltb,
  leb, ◌==◌, if◌then◌else◌, length, take, drop, Bytes, Try, returned, threw, length_error,
}

-- `none` in a member stands for one that the function leaves uninitialised.
pub record WebSocketFrame : Type 0 where
  pub fin : Bool
  pub opcode : ℕ
  pub masked : Option Bool
  pub payload_length : Option ℕ
  pub mask : Option Bytes
  pub payload : Bytes

abbrev pub opcode_text : ℕ
opcode_text = 0x1

abbrev pub opcode_close : ℕ
opcode_close = 0x8

abbrev pub opcode_ping : ℕ
opcode_ping = 0x9

abbrev pub opcode_pong : ℕ
opcode_pong = 0xa

abbrev pub word_size : ℕ
word_size = 2 ^ 64

-- `std::vector<uint8_t>::max_size()`.
abbrev pub max_size : ℕ
max_size = 2 ^ 63 - 1

-- The number whose bytes these are, the most significant one first.
unfoldable pub big_endian : ℕ → Bytes → ℕ
big_endian acc [] = acc
big_endian acc (b ∷ bs) = big_endian (acc * 256 + b) bs

-- What the length field gives: the payload's length, where the field ends, and what is behind it.
unfoldable pub read_length : ℕ → Bytes → Option (ℕ × ℕ × Bytes)
read_length n rest =
    if n == 126
    then (if ltb (length rest) 2 then none else some (big_endian 0 (take 2 rest), 4, drop 2 rest))
    else if n == 127
    then (if ltb (length rest) 8 then none else some (big_endian 0 (take 8 rest), 10, drop 8 rest))
    else some (n, 2, rest)

-- The key's byte at `i % 4`.
unfoldable pub key_byte : Bytes → ℕ → ℕ
key_byte [] i = 0
key_byte (k ∷ key) zero = k
key_byte (k ∷ key) (suc i) = key_byte key i

-- The loop over the payload, from byte `i` on.
unfoldable pub unmask : Bytes → ℕ → Bytes → Bytes
unfolding key_byte
unmask key i [] = []
unmask key i (b ∷ bs) = bit_xor b (key_byte key (i % 4)) ∷ unmask key (i + 1) bs

unfoldable pub unmasked : Option Bytes → Bytes → Bytes
unmasked none bs = bs
unmasked (some key) bs = unmask key 0 bs

-- From the size check on, with `body` what stands behind `start`.
unfoldable pub read_payload : WebSocketFrame → ℕ → ℕ → Bytes → Try WebSocketFrame
read_payload frame len start body =
    if ltb (start + length body) ((start + len) % word_size)
    then returned frame
    else if ltb max_size len
    then threw length_error
    else returned (record frame { payload = unmasked frame.mask (take len body) })

unfoldable pub read_mask : WebSocketFrame → Bool → ℕ → ℕ → Bytes → Try WebSocketFrame
read_mask frame has_mask len start body =
    if has_mask
    then (if ltb (length body) 4
        then returned frame
        else read_payload (record frame { mask = some (take 4 body) }) len (start + 4)
            (drop 4 body))
    else read_payload frame len start body

unfoldable pub parse_frame : Bytes → Try WebSocketFrame
parse_frame (b0 ∷ b1 ∷ rest) =
    let frame : WebSocketFrame = record {
      fin = leb 128 b0;
      opcode = b0 % 16;
      masked = some (leb 128 b1);
      payload_length = none;
      mask = none;
      payload = [];
    } in
    elim (read_length (b1 % 128) rest) [
      | none ↦ returned frame
      | some (len, start, body) ↦
          read_mask (record frame { payload_length = some len }) (leb 128 b1) len start body
    ]
parse_frame _ = returned (record {
  fin = false;
  opcode = 0;
  masked = none;
  payload_length = none;
  mask = none;
  payload = [];
})

-- The bytes of `n` at the places below `k`, the most significant one first.
unfoldable pub to_big_endian : ℕ → ℕ → Bytes
to_big_endian zero n = []
to_big_endian (suc k) n = (n / 256 ^ k) % 256 ∷ to_big_endian k n

-- The length field, in the shortest form.
unfoldable pub length_field : ℕ → Bytes
length_field len =
    if ltb len 126
    then len ∷ []
    else if ltb len 65536
    then 126 ∷ to_big_endian 2 len
    else 127 ∷ to_big_endian 8 len

unfoldable pub create_frame : ℕ → Bytes → Bytes
create_frame opcode payload = bit_or 0x80 opcode ∷ (length_field (length payload) ++ payload)
