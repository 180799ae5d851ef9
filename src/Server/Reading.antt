-- ===== src/Server/Reading.antt =====
-- `read_request_with_timeout` of src/core/server.cpp, over every course of the socket's events.
use web_server_http.Common.{
  ℕ, suc, ◌≤◌, true, false, List, [], ◌∷◌, ◌++◌, ◌≡◌, refl, sym, ap, ◌∙◌, ltb, length, take, Bytes,
  contains, append-nil, append_assoc, Bool-cases, inl, inr, arith,
}
use web_server_http.Server.Io.{
  ReadEvent, received, deadline_passed, shutdown_seen, select_failed, select_timeout, closed,
  try_again, recv_failed, complete, buffer_size, header_limit, read_request_with_timeout,
}
use web_server_http.Server.Response.{blank_line}

-- The bytes that the events bring, no more than the buffer holds from each.
unfoldable pub arrived : List ReadEvent → Bytes
arrived [] = []
arrived (received chunk ∷ es) = take buffer_size chunk ++ arrived es
arrived (_ ∷ es) = arrived es

-- A finished text: within the limit, with the blank line, and made of what was there and what a
-- first part of the events brought.
abbrev pub Finished : Bytes → List ReadEvent → Bytes → Type 0
Finished start es text =
    (contains blank_line text ≡ true)
    × (length text ≤ header_limit)
    × ((n : ℕ) × (text ≡ start ++ arrived (take n es)))

at_once :
    (start text : Bytes) (es : List ReadEvent)
    → length start ≤ header_limit
    → contains blank_line start ≡ true
    → complete start ≡ complete text
    → Finished start es text
unfolding arrived
at_once start text es h c e =
    let same : start ≡ text = cc in rw (sym same) (c, h, (0, sym (append-nil start)))

-- A further event in front, and the text it brought.
Finished-later :
    (start : Bytes) (x : ReadEvent) (es : List ReadEvent) (text : Bytes)
    → Finished (start ++ arrived (x ∷ [])) es text
    → Finished start (x ∷ es) text
Finished-later start x es text (c, l, (n, e)) = (
  c,
  l,
  (
    suc n,
    e ∙ (append_assoc start (arrived (x ∷ [])) (arrived (take n es)) ∙ ap (◌++◌ start) (one x n)),
  ),
)
  where
    one :
        (x : ReadEvent) (n : ℕ) → arrived (x ∷ []) ++ arrived (take n es) ≡ arrived (x ∷ take n es)
    one (received chunk) n =
        unfold arrived in ap (λ t. t ++ arrived (take n es)) (append-nil (take buffer_size chunk))
    one deadline_passed n = unfold arrived in refl
    one shutdown_seen n = unfold arrived in refl
    one select_failed n = unfold arrived in refl
    one select_timeout n = unfold arrived in refl
    one closed n = unfold arrived in refl
    one try_again n = unfold arrived in refl
    one recv_failed n = unfold arrived in refl

quiet :
    (start : Bytes) (x : ReadEvent) (es : List ReadEvent) (text : Bytes)
    → arrived (x ∷ []) ≡ []
    → Finished start es text
    → Finished start (x ∷ es) text
quiet start x es text a f = Finished-later start x es text (rw (a, append-nil start) f)

unless_there :
    (start text : Bytes) (es : List ReadEvent)
    → length start ≤ header_limit
    → read_request_with_timeout start es ≡ complete text
    → (contains blank_line start ≡ false → Finished start es text)
    → Finished start es text
unfolding read_request_with_timeout
unless_there start text [] h e f = elim (Bool-cases (contains blank_line start)) [
  | inl c ↦ at_once start text [] h c (rw (c, read_request_with_timeout) at e)
  | inr c ↦ f c
]
unless_there start text (x ∷ es) h e f = elim (Bool-cases (contains blank_line start)) [
  | inl c ↦ at_once start text (x ∷ es) h c (rw (c, read_request_with_timeout) at e)
  | inr c ↦ f c
]

-- If `read_request_with_timeout` succeeds from a text within the limit, its text has the blank line
-- that ends a header, is at most 8192 bytes long, and is the text before followed by exactly the
-- bytes that a first part of the events brought, in order.
pub read_request-Finished :
    (start : Bytes) (es : List ReadEvent) (text : Bytes)
    → length start ≤ header_limit
    → read_request_with_timeout start es ≡ complete text
    → Finished start es text
unfolding read_request_with_timeout
read_request-Finished start [] text h e =
    unless_there start text [] h e (λ c. absurd (ground (arith, e, c)))
read_request-Finished start (received chunk ∷ es) text h e =
    let longer = start ++ take buffer_size chunk in
    let brought : arrived (received chunk ∷ []) ≡ take buffer_size chunk =
      unfold arrived in append-nil (take buffer_size chunk) in
    unless_there start text (received chunk ∷ es) h e (λ c.
      Finished-later start (received chunk) es text (
        rw brought (elim (Bool-cases (ltb header_limit (length longer))) [
          | inl q ↦ absurd (ground (arith, e, c, q))
          | inr q ↦
              read_request-Finished longer es text (ground (arith, q))
                (rw (c, q, read_request_with_timeout) at e)
        ])))
read_request-Finished start (select_timeout ∷ es) text h e =
    unless_there start text (select_timeout ∷ es) h e (λ c.
      quiet start select_timeout es text (unfold arrived in refl)
        (read_request-Finished start es text h (rw (c, read_request_with_timeout) at e)))
read_request-Finished start (try_again ∷ es) text h e =
    unless_there start text (try_again ∷ es) h e (λ c.
      quiet start try_again es text (unfold arrived in refl)
        (read_request-Finished start es text h (rw (c, read_request_with_timeout) at e)))
read_request-Finished start (x ∷ es) text h e =
    unless_there start text (x ∷ es) h e (λ c. absurd (ground (arith, e, c)))
