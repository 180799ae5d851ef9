-- ===== src/WebSocket/Frame/RoundTrip.antt =====
-- `parse_frame` against `create_frame`.
use Prim.Native.Nat.{bit_or}
use web_server_http.Common.{
  ℕ, ◌+◌, ◌%◌, ◌≤◌, ◌<◌, Bool, true, false, [], ◌∷◌, ◌++◌, ◌&&◌, ◌≡◌, refl, Option, none, some, leb,
  ◌==◌, length, take_all, Bytes, returned, arith, all_below, all_below_sound,
}
use web_server_http.WebSocket.Frame.{
  WebSocketFrame, max_size, read_length, unmask, unmasked, read_payload, read_mask, parse_frame,
  create_frame,
}
use web_server_http.WebSocket.Frame.Length.{length_field-ReadBack}

first_byte_table : all_below 16 (λ op. leb 128 (bit_or 128 op) && bit_or 128 op % 16 == op) ≡ true
unfolding all_below
first_byte_table = refl

-- The first byte of a frame gives back FIN and the opcode.
pub first_byte : (op : ℕ) → op < 16 → (leb 128 (bit_or 128 op) ≡ true) × (bit_or 128 op % 16 ≡ op)
first_byte op h = ground (
  arith,
  all_below_sound 16 (λ x. leb 128 (bit_or 128 x) && bit_or 128 x % 16 == x) op first_byte_table,
)

-- A payload that is all there is taken whole.
read_payload_exact :
    (frame : WebSocketFrame) (start : ℕ) (body : Bytes)
    → start ≤ 14
    → length body ≤ max_size
    → read_payload frame (length body) start body
      ≡ returned (record frame { payload = unmasked frame.mask body })
unfolding read_payload
read_payload_exact frame start body h k = ground (arith, take_all (length body) body)

abbrev pub read_frame : ℕ → Bool → ℕ → Option Bytes → Bytes → WebSocketFrame
read_frame b0 has_mask len mask payload = record {
  fin = leb 128 b0;
  opcode = b0 % 16;
  masked = some has_mask;
  payload_length = some len;
  mask = mask;
  payload = payload;
}

-- Behind a length field that tells how much follows, an unmasked payload is taken as it is.
parse_frame_unmasked :
    (b0 b1 start : ℕ) (rest body : Bytes)
    → b1 < 128
    → start ≤ 10
    → length body ≤ max_size
    → read_length b1 rest ≡ some (length body, start, body)
    → parse_frame (b0 ∷ b1 ∷ rest) ≡ returned (read_frame b0 false (length body) none body)
unfolding parse_frame read_mask unmasked
parse_frame_unmasked b0 b1 start rest body p q r e =
    let low : b1 % 128 ≡ b1 = omega arith in
    let high : leb 128 b1 ≡ false = ground arith in
    ground (
      arith,
      low,
      e,
      high,
      read_payload_exact (read_frame b0 false (length body) none []) start body (omega arith) r,
    )

-- A masked one is unmasked with the four bytes in front of it.
pub parse_frame_masked :
    (b0 b1 start : ℕ) (rest : Bytes) (k0 k1 k2 k3 : ℕ) (body : Bytes)
    → b1 < 128
    → start ≤ 10
    → length body ≤ max_size
    → read_length b1 rest ≡ some (length body, start, k0 ∷ k1 ∷ k2 ∷ k3 ∷ body)
    → parse_frame (b0 ∷ (128 + b1) ∷ rest)
      ≡ returned (
          read_frame b0 true
            (length body)
            (some (k0 ∷ k1 ∷ k2 ∷ k3 ∷ []))
            (unmask (k0 ∷ k1 ∷ k2 ∷ k3 ∷ []) 0 body))
unfolding parse_frame read_mask unmasked
parse_frame_masked b0 b1 start rest k0 k1 k2 k3 body p q r e =
    let key : Bytes = k0 ∷ k1 ∷ k2 ∷ k3 ∷ [] in
    let low : (128 + b1) % 128 ≡ b1 = omega arith in
    let high : leb 128 (128 + b1) ≡ true = ground arith in
    ground (
      arith,
      low,
      e,
      high,
      read_payload_exact (read_frame b0 true (length body) (some key) []) (start + 4) body
          (omega arith) r,
    )

-- A frame that the server makes from an opcode below 16 and a payload of at most 2 ^ 63 - 1 bytes is
-- parsed back: the final fragment, unmasked, with that opcode and payload.
pub parse_frame-create_frame :
    (opcode : ℕ) (payload : Bytes)
    → opcode < 16
    → length payload ≤ max_size
    → parse_frame (create_frame opcode payload)
      ≡ returned (record {
        fin = true;
        opcode = opcode;
        masked = some false;
        payload_length = some (length payload);
        mask = none;
        payload = payload;
      })
unfolding create_frame unmasked
parse_frame-create_frame opcode payload h k =
    let f = length_field-ReadBack (length payload) k in
    rw f.split (
      ground (
        arith,
        first_byte opcode h,
        parse_frame_unmasked (bit_or 128 opcode) f.first f.start (f.more ++ payload) payload
            f.first-lt f.start-le k (f.reads payload),
      ))
