-- ===== src/Http2/Streaming.antt =====
-- The body of a response as `data_source_read_callback` of src/handlers/http2_handler.cpp gives it out,
-- over calls with buffers of any sizes.
use web_server_http.Common.{
  ℕ, ◌+◌, ◌-◌, ◌≤◌, true, List, [], ◌∷◌, ◌++◌, ◌≡◌, refl, sym, ap, ◌∙◌, length, take, drop,
  drop-drop, take-min, drop-min, take_more, ap₂, ◌↔◌, min, Bytes, arith, length-drop,
}
use web_server_http.Http2.Callbacks.{data_source_read}
use web_server_http.Http2.State.{Http2Stream}

abbrev pub sum : List ℕ → ℕ
sum [] = 0
sum (n ∷ ns) = n + sum ns

-- The chunks that calls with these buffer sizes give, and the stream behind them.
unfoldable pub read_all : List ℕ → Http2Stream → Bytes × Http2Stream
unfolding data_source_read
read_all [] st = ([], st)
read_all (room ∷ rooms) st =
    let (st', chunk, end_flag) = data_source_read room st in
    let (chunks, last) = read_all rooms st' in (chunk ++ chunks, last)

part :
    (room : ℕ) (st : Http2Stream)
    → let (st', chunk, end_flag) = data_source_read room st in
      let rest = drop st.response_data_sent st.response_body in
      (chunk ≡ take room rest)
      × (drop st'.response_data_sent st.response_body ≡ drop room rest)
      × (st'.response_body ≡ st.response_body)
unfolding data_source_read
part room st =
    let remaining = length st.response_body - st.response_data_sent in
    let rest = drop st.response_data_sent st.response_body in
    let short : length rest ≤ remaining =
      omega (arith, length-drop st.response_data_sent st.response_body) in
    let flip : st.response_data_sent + min room remaining
        ≡ min room remaining + st.response_data_sent =
      omega arith in
    (
      take-min room remaining rest short,
      ap (λ n. drop n st.response_body) flip
          ∙ (sym (drop-drop (min room remaining) st.response_data_sent st.response_body)
              ∙ drop-min room remaining rest short),
      refl,
    )

-- Together the chunks are the next part of the body, as long as the buffers have room: the calls
-- neither skip nor repeat a byte, whatever the sizes of the buffers.
pub read_all_exact :
    (rooms : List ℕ) (st : Http2Stream)
    → (read_all rooms st).0 ≡ take (sum rooms) (drop st.response_data_sent st.response_body)
unfolding read_all
read_all_exact [] st = refl
read_all_exact (room ∷ rooms) st =
    let rest = drop st.response_data_sent st.response_body in
    let st' = (data_source_read room st).0 in
    let (chunk, left, same) = part room st in
    ap₂ ◌++◌ chunk (
      read_all_exact rooms st'
      ∙ ap (take (sum rooms)) (ap (drop st'.response_data_sent) same ∙ left))
    ∙ take_more room (sum rooms) rest

nil_of_length : (xs : Bytes) → length xs ≡ 0 → xs ≡ []
nil_of_length [] h = refl
nil_of_length (x ∷ xs) h = absurd (omega (arith, h))

-- A call sets the end flag exactly if nothing of the body is left behind it.
pub data_source_read_end :
    (room : ℕ) (st : Http2Stream)
    → let (st', chunk, end_flag) = data_source_read room st in
      (end_flag ≡ true) ↔ (drop st'.response_data_sent st.response_body ≡ [])
unfolding data_source_read
data_source_read_end room st =
    let sent = (data_source_read room st).0.response_data_sent in
    let left = length-drop sent st.response_body in
    (
      (λ h. nil_of_length (drop sent st.response_body) (ground (arith, left, h))),
      (λ h. ground (arith, left, ap length h)),
    )
