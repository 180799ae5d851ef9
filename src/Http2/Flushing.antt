-- ===== src/Http2/Flushing.antt =====
-- `flush_output` of src/handlers/http2_handler.cpp and partial writes.
use web_server_http.Common.{
  ℕ, ◌≤◌, true, [], ◌∷◌, ◌++◌, ◌≡◌, ◌↔◌, refl, ap, ◌∙◌, length, take, Bytes, length-append,
  length-take, take_all, append-nil, arith,
}
use web_server_http.Http2.Transport.{took, flush_output}

cut_whole : (n : ℕ) (xs : Bytes) → (take n xs ++ [] ≡ xs) ↔ (length xs ≤ n)
cut_whole n xs = (
  (λ e. omega (arith, ap length e, length-append (take n xs) [], length-take n xs)),
  (λ h. append-nil (take n xs) ∙ take_all n xs h),
)

-- Where nghttp2_session_send succeeds and the socket takes `n` bytes, or all where there are fewer, what
-- a flush writes and what it keeps in the buffer are together the buffer exactly if that was all of it: a
-- partial write loses the rest.
pub flush_output_keeps_iff :
    (n : ℕ) (buffer : Bytes)
    → let (result, kept, wire) = flush_output true (took n) buffer in
      (wire ++ kept ≡ buffer) ↔ (length buffer ≤ n)
unfolding flush_output
flush_output_keeps_iff n [] = ((λ e. omega arith), (λ h. refl))
flush_output_keeps_iff n (x ∷ xs) = cut_whole n (x ∷ xs)
