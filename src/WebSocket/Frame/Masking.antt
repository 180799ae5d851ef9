-- ===== src/WebSocket/Frame/Masking.antt =====
-- The mask of a payload.
use Prim.Native.Nat.{bit_xor}
use web_server_http.Common.{
  ℕ, zero, suc, ◌+◌, ◌%◌, ◌<◌, true, [], ◌∷◌, ◌≡◌, refl, ap, ap₂, All, ◌==◌, ==_iff, length, Bytes,
  arith, all_below, all_below_sound,
}
use web_server_http.WebSocket.Frame.{key_byte, unmask}

abbrev pub IsByte : ℕ → Type 0
IsByte b = b < 256

xor_table : all_below 256 (λ a. all_below 256 (λ b. bit_xor (bit_xor a b) b == a)) ≡ true
unfolding all_below
xor_table = refl

xor_twice : (a b : ℕ) → IsByte a → IsByte b → bit_xor (bit_xor a b) b ≡ a
xor_twice a b p q = (==_iff _ _).0 (
    all_below_sound 256 (λ y. bit_xor (bit_xor a y) y == a) b
      (all_below_sound 256 (λ x. all_below 256 (λ y. bit_xor (bit_xor x y) y == x)) a xor_table p)
      q)

key_byte-IsByte : (key : Bytes) (i : ℕ) → All IsByte key → IsByte (key_byte key i)
unfolding key_byte
key_byte-IsByte [] i h = omega arith
key_byte-IsByte (k ∷ key) zero h = h.0
key_byte-IsByte (k ∷ key) (suc i) h = key_byte-IsByte key i h.1

-- Masking and unmasking are one operation.
pub unmask_twice :
    (key : Bytes) (i : ℕ) (bs : Bytes)
    → All IsByte key
    → All IsByte bs
    → unmask key i (unmask key i bs) ≡ bs
unfolding unmask
unmask_twice key i [] h k = refl
unmask_twice key i (b ∷ bs) h k =
    ap₂ ◌∷◌ (xor_twice b (key_byte key (i % 4)) k.0 (key_byte-IsByte key (i % 4) h))
      (unmask_twice key (i + 1) bs h k.1)

pub length-unmask : (key : Bytes) (i : ℕ) (bs : Bytes) → length (unmask key i bs) ≡ length bs
unfolding unmask
length-unmask key i [] = refl
length-unmask key i (b ∷ bs) = ap suc (length-unmask key (i + 1) bs)
