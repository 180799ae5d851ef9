-- ===== src/Http2/Output.antt =====
-- The way of the bytes that nghttp2 gives to `send_callback`: through `output_buffer` to the socket.
use web_server_http.Common.{
  ℕ, ◌≤◌, Bool, true, false, List, [], ◌∷◌, ◌++◌, ◌≡◌, refl, ap, ◌∙◌, sym, subst, append_assoc,
  append-nil, Option, none, some, is_empty, length, take, take_all, Bytes, Option-cases, inl, inr,
}
use web_server_http.FileHandler.{FileSystem}
use web_server_http.Http2.Session.{
  Session, Flush, Turn, Callback, frame_received, header_received, chunk_received, stream_closed,
  frame_written, send_all, send_callback, flush, callback, callbacks, taken_in, turn_by,
  process_turn, process_turns,
}
use web_server_http.Http2.Transport.{Write, took, blocked, broken, flush_output}

-- A write that succeeds takes all of `m` bytes.
abbrev pub Takes : ℕ → Write → Type 0
Takes m (took n) = m ≤ n
Takes m blocked = Unit
Takes m broken = Unit

abbrev pub joined : List Bytes → Bytes
joined [] = []
joined (b ∷ bs) = b ++ joined bs

-- What the callbacks give to the buffer.
abbrev pub written : List Callback → Bytes
written [] = []
written (frame_written b ∷ cs) = b ++ written cs
written (c ∷ cs) = written cs

send_all-joined :
    (bs : List Bytes) (s : Session) → (send_all bs s).output_buffer ≡ s.output_buffer ++ joined bs
unfolding send_all send_callback
send_all-joined [] s = sym (append-nil s.output_buffer)
send_all-joined (b ∷ bs) s =
    send_all-joined bs (send_callback b s) ∙ append_assoc s.output_buffer b (joined bs)

flush_output-Takes :
    (ok : Bool) (w : Write) (buffer : Bytes)
    → Takes (length buffer) w
    → let (result, kept, wire) = flush_output ok w buffer in wire ++ kept ≡ buffer
unfolding flush_output
flush_output-Takes false w buffer h = refl
flush_output-Takes true w [] h = refl
flush_output-Takes true (took n) (x ∷ xs) h = append-nil (take n (x ∷ xs)) ∙ take_all n (x ∷ xs) h
flush_output-Takes true blocked (x ∷ xs) h = refl
flush_output-Takes true broken (x ∷ xs) h = refl

flush-joined :
    (f : Flush) (s : Session)
    → Takes (length (s.output_buffer ++ joined f.frames)) f.write
    → (flush f s).2 ++ (flush f s).0.output_buffer ≡ s.output_buffer ++ joined f.frames
unfolding flush
flush-joined f s h =
    let e = send_all-joined f.frames s in
    flush_output-Takes f.session_ok f.write (send_all f.frames s).output_buffer
      (subst (λ b. Takes (length b) f.write) (sym e) h)
    ∙ e

regrouped :
    (wire later left now rest buffer front : Bytes)
    → later ++ left ≡ buffer ++ rest
    → wire ++ buffer ≡ front ++ now
    → (wire ++ later) ++ left ≡ front ++ (now ++ rest)
regrouped wire later left now rest buffer front e e' =
    append_assoc wire later left
    ∙ ap (λ b. wire ++ b) e
    ∙ sym (append_assoc wire buffer rest)
    ∙ ap (λ b. b ++ rest) e'
    ∙ append_assoc front now rest

module _ (document_root : Bytes) (fs : FileSystem) where
  callbacks-written :
      (cs : List Callback) (s : Session)
      → (callbacks document_root fs cs s).output_buffer ≡ s.output_buffer ++ written cs
  unfolding callbacks callback send_callback
  callbacks-written [] s = sym (append-nil s.output_buffer)
  callbacks-written (frame_written b ∷ cs) s =
      callbacks-written cs (callback document_root fs (frame_written b) s)
      ∙ append_assoc s.output_buffer b (written cs)
  callbacks-written (frame_received frame ∷ cs) s =
      callbacks-written cs (callback document_root fs (frame_received frame) s)
  callbacks-written (header_received id name value ∷ cs) s =
      callbacks-written cs (callback document_root fs (header_received id name value) s)
  callbacks-written (chunk_received id chunk ∷ cs) s =
      callbacks-written cs (callback document_root fs (chunk_received id chunk) s)
  callbacks-written (stream_closed id ∷ cs) s =
      callbacks-written cs (callback document_root fs (stream_closed id) s)

  -- What nghttp2 gives in a call of `process_data`.
  abbrev turn_given : Bool → Option ℕ → Turn → Bytes
  turn_given true received t = []
  turn_given false none t = written t.called
  turn_given false (some n) t = written t.called ++ joined t.flushing.frames

  turn_by-given :
      (nothing : Bool) (received : Option ℕ) (t : Turn) (result : Bool → Option ℕ) (s : Session)
      → Takes (length (s.output_buffer ++ turn_given nothing received t)) t.flushing.write
      → let (s1, r, wire) = turn_by document_root fs nothing received t result s in
        wire ++ s1.output_buffer ≡ s.output_buffer ++ turn_given nothing received t
  unfolding turn_by
  turn_by-given true received t result s h = sym (append-nil s.output_buffer)
  turn_by-given false none t result s h = callbacks-written t.called s
  turn_by-given false (some n) t result s h =
      let s1 = callbacks document_root fs t.called s in
      let frames = joined t.flushing.frames in
      let e : s1.output_buffer ++ frames ≡ s.output_buffer ++ (written t.called ++ frames) =
        ap (λ b. b ++ frames) (callbacks-written t.called s)
        ∙ append_assoc s.output_buffer (written t.called) frames in
      flush-joined t.flushing s1 (subst (λ b. Takes (length b) t.flushing.write) (sym e) h) ∙ e

  -- What nghttp2 gives over calls up to the first that fails.
  unfoldable pub given : List Turn → Session → Bytes
  given [] s = []
  given (t ∷ ts) s =
      let now = turn_given (is_empty (taken_in true t s).handed_over) t.recv_result t in
      let later = given ts (process_turn document_root fs t s).0 in
      elim (process_turn document_root fs t s).1 [ none ↦ now | some n ↦ now ++ later ]

  -- Every write that succeeds takes the whole buffer, as it is at the flush of its call.
  unfoldable pub AllTake : List Turn → Session → Type 0
  AllTake [] s = Unit
  AllTake (t ∷ ts) s =
      Takes
        (length (
          s.output_buffer ++ turn_given (is_empty (taken_in true t s).handed_over) t.recv_result t))
        t.flushing.write
      × AllTake ts (process_turn document_root fs t s).0

  process_turn-given :
      (t : Turn) (s : Session)
      → let now = turn_given (is_empty (taken_in true t s).handed_over) t.recv_result t in
        Takes (length (s.output_buffer ++ now)) t.flushing.write
        → let (s1, r, wire) = process_turn document_root fs t s in
          wire ++ s1.output_buffer ≡ s.output_buffer ++ now
  unfolding process_turn
  process_turn-given t s h =
      turn_by-given (is_empty (taken_in true t s).handed_over) t.recv_result t
        (λ flushed. (taken_in flushed t s).result)
        (record s { preface_processed = (taken_in true t s).preface_processed }) h

  -- What goes out and what is still in the buffer are, in this order, what was in the buffer and what
  -- nghttp2 gave to `send_callback` in the calls, up to the first that fails, if every write that succeeds
  -- takes the whole buffer as it is then. A write may as well fail or find the socket busy.
  pub process_turns-given :
      (ts : List Turn) (s : Session)
      → AllTake ts s
      → let (s1, wire) = process_turns document_root fs ts s in
        wire ++ s1.output_buffer ≡ s.output_buffer ++ given ts s
  unfolding process_turns given AllTake
  process_turns-given [] s h = sym (append-nil s.output_buffer)
  process_turns-given (t ∷ ts) s h =
      let now = turn_given (is_empty (taken_in true t s).handed_over) t.recv_result t in
      let s1 = (process_turn document_root fs t s).0 in
      elim (Option-cases (process_turn document_root fs t s).1) [
        | inl q ↦ rw (q, process_turns, given) (process_turn-given t s h.0)
        | inr (n, q) ↦
            rw (q, process_turns, given)
              (regrouped (process_turn document_root fs t s).2 _ _ now (given ts s1)
                s1.output_buffer s.output_buffer (process_turns-given ts s1 h.1)
                (process_turn-given t s h.0))
      ]
