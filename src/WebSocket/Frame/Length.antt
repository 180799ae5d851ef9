-- ===== src/WebSocket/Frame/Length.antt =====
-- The length field of a frame: what `create_frame` writes, `parse_frame` reads.

use web_server_http.Common.{
  ℕ, ◌≤◌, ◌<◌, [], ◌∷◌, ◌++◌, ◌≡◌, some, ltb, Bytes, arith, Bool-cases, inl, inr,
}
use web_server_http.WebSocket.Frame.{
  word_size, max_size, big_endian, read_length, to_big_endian, length_field,
}

big_endian_two : (n : ℕ) → n < 65536 → big_endian 0 (to_big_endian 2 n) ≡ n
unfolding big_endian to_big_endian
big_endian_two n h = omega arith

big_endian_eight : (n : ℕ) → n < word_size → big_endian 0 (to_big_endian 8 n) ≡ n
unfolding big_endian to_big_endian
big_endian_eight n h = omega arith

-- A length field is read back, whatever follows it.
pub record ReadBack (len : ℕ) : Type 0 where
  pub first : ℕ
  pub more : Bytes
  pub start : ℕ
  pub split : length_field len ≡ first ∷ more
  pub first-lt : first < 128
  pub start-le : start ≤ 10
  pub reads : (tail : Bytes) → read_length first (more ++ tail) ≡ some (len, start, tail)

pub length_field-ReadBack : (len : ℕ) → len ≤ max_size → ReadBack len
unfolding length_field
length_field-ReadBack len h = elim (Bool-cases (ltb len 126)) [
  | inl short ↦ record {
    first = len;
    more = [];
    start = 2;
    split = rw short;
    first-lt = ground arith;
    start-le = omega arith;
    reads = λ tail. unfold read_length in ground arith;
  }
  | inr long ↦ elim (Bool-cases (ltb len 65536)) [
    | inl middle ↦ record {
      first = 126;
      more = to_big_endian 2 len;
      start = 4;
      split = rw (long, middle);
      first-lt = omega arith;
      start-le = omega arith;
      reads = λ tail. read_two len tail (ground arith);
    }
    | inr huge ↦ record {
      first = 127;
      more = to_big_endian 8 len;
      start = 10;
      split = rw (long, huge);
      first-lt = omega arith;
      start-le = omega arith;
      reads = λ tail. read_eight len tail (omega arith);
    }
  ]
]
  where
    read_two :
        (n : ℕ) (tail : Bytes)
        → n < 65536
        → read_length 126 (to_big_endian 2 n ++ tail) ≡ some (n, 4, tail)
    read_two n tail k = unfold read_length to_big_endian in ground (arith, big_endian_two n k)

    read_eight :
        (n : ℕ) (tail : Bytes)
        → n < word_size
        → read_length 127 (to_big_endian 8 n ++ tail) ≡ some (n, 10, tail)
    read_eight n tail k = unfold read_length to_big_endian in ground (arith, big_endian_eight n k)
