-- ===== src/WebSocket/Frame/Client.antt =====
-- `parse_frame` on the frames that a client sends.
use Prim.Native.Nat.{bit_or, bit_xor}
use web_server_http.Common.{
  ℕ, ◌+◌, ◌/◌, ◌%◌, ◌^◌, ◌≤◌, ◌<◌, true, [], ◌∷◌, ◌++◌, ◌≡◌, refl, sym, ap, All, ◌∙◌, some, ltb,
  if◌then◌else◌, length, Bytes, returned, arith,
}
use web_server_http.WebSocket.Frame.{
  max_size, key_byte, unmask, parse_frame, to_big_endian, length_field,
}
use web_server_http.WebSocket.Frame.Length.{length_field-ReadBack}
use web_server_http.WebSocket.Frame.Masking.{IsByte, unmask_twice, length-unmask}
use web_server_http.WebSocket.Frame.RoundTrip.{first_byte, parse_frame_masked}

-- A client's frame, by section 5.2 and 5.3 of RFC 6455: the final fragment, the mask bit with the
-- length in seven bits, two bytes or eight, the key, and each byte of the payload with the byte of the
-- key whose turn it is.
abbrev pub digit : ℕ → ℕ → ℕ
digit k n = n / 256 ^ k % 256

unfoldable pub client_length : ℕ → Bytes
client_length n =
    if ltb n 126
    then (128 + n) ∷ []
    else if ltb n 65536
    then 254 ∷ digit 1 n ∷ digit 0 n ∷ []
    else 255
      ∷ digit 7 n
      ∷ digit 6 n
      ∷ digit 5 n
      ∷ digit 4 n
      ∷ digit 3 n
      ∷ digit 2 n
      ∷ digit 1 n
      ∷ digit 0 n
      ∷ []

unfoldable pub mask_payload : ℕ → ℕ → ℕ → ℕ → Bytes → Bytes
mask_payload k0 k1 k2 k3 [] = []
mask_payload k0 k1 k2 k3 (b ∷ bs) = bit_xor b k0 ∷ mask_payload k1 k2 k3 k0 bs

unfoldable pub client_frame : ℕ → ℕ → ℕ → ℕ → ℕ → Bytes → Bytes
unfolding client_length mask_payload
client_frame opcode k0 k1 k2 k3 payload =
    bit_or 0x80 opcode
    ∷ (client_length (length payload) ++ (k0 ∷ k1 ∷ k2 ∷ k3 ∷ mask_payload k0 k1 k2 k3 payload))

abbrev set_mask_bit : Bytes → Bytes
set_mask_bit [] = []
set_mask_bit (b ∷ bs) = (128 + b) ∷ bs

client_length-set_mask_bit : (n : ℕ) → client_length n ≡ set_mask_bit (length_field n)
unfolding client_length length_field to_big_endian
client_length-set_mask_bit n = ground arith

-- The loop of the server takes the bytes of the key in turn.
turns :
    (key : Bytes) (i : ℕ) (bs : Bytes)
    → mask_payload
        (key_byte key (i % 4))
        (key_byte key ((i + 1) % 4))
        (key_byte key ((i + 2) % 4))
        (key_byte key ((i + 3) % 4))
        bs
      ≡ unmask key i bs
unfolding mask_payload unmask
turns key i [] = refl
turns key i (b ∷ bs) =
    let two : (i + 2) % 4 ≡ (i + 1 + 1) % 4 = omega arith in
    let three : (i + 3) % 4 ≡ (i + 1 + 2) % 4 = omega arith in
    let four : i % 4 ≡ (i + 1 + 3) % 4 = omega arith in
    ap (◌∷◌ (bit_xor b (key_byte key (i % 4)))) (rw (two, three, four) (turns key (i + 1) bs))

-- A client's frame with an opcode below 16, any key and a payload of at most 2 ^ 63 - 1 bytes is parsed
-- to the payload as the client had it before masking.
pub parse_frame-client_frame :
    (opcode k0 k1 k2 k3 : ℕ) (payload : Bytes)
    → opcode < 16
    → length payload ≤ max_size
    → All IsByte (k0 ∷ k1 ∷ k2 ∷ k3 ∷ [])
    → All IsByte payload
    → parse_frame (client_frame opcode k0 k1 k2 k3 payload)
      ≡ returned (record {
        fin = true;
        opcode = opcode;
        masked = some true;
        payload_length = some (length payload);
        mask = some (k0 ∷ k1 ∷ k2 ∷ k3 ∷ []);
        payload = payload;
      })
unfolding client_frame key_byte
parse_frame-client_frame opcode k0 k1 k2 k3 payload h k kb pb =
    let key : Bytes = k0 ∷ k1 ∷ k2 ∷ k3 ∷ [] in
    let f = length_field-ReadBack (length payload) k in
    let masked = unmask key 0 payload in
    rw (client_length-set_mask_bit (length payload), turns key 0 payload, f.split)
      (ground (
        arith,
        first_byte opcode h,
        length-unmask key 0 payload,
        unmask_twice key 0 payload kb pb,
        parse_frame_masked (bit_or 128 opcode) f.first f.start (f.more ++ (key ++ masked)) k0 k1 k2
            k3 masked f.first-lt f.start-le (omega (arith, length-unmask key 0 payload))
            (f.reads (key ++ masked)
              ∙ ap (λ n. some (n, f.start, key ++ masked)) (sym (length-unmask key 0 payload))),
      ))
