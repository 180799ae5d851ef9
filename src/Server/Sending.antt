-- ===== src/Server/Sending.antt =====
-- `send_response_safe` of src/core/server.cpp, over every course of partial writes.
use web_server_http.Common.{
  false, ◌≤◌, ◌<◌, List, [], ◌∷◌, ◌++◌, ◌≡◌, refl, ap, ◌∙◌, length, take, drop, Bytes, append_assoc,
  take-append-drop, length-drop, ◌↔◌, arith, All,
}
use web_server_http.Server.Io.{
  SendEvent, sent, send_failed, shutdown_requested, all_sent, send_response_safe, send_left,
}

send_left_exact :
    (response : Bytes) (es : List SendEvent)
    → (rest : Bytes) × ((send_left response es).1 ++ rest ≡ response)
      × (((send_left response es).0 ≡ all_sent) ↔ (rest ≡ []))
unfolding send_left
send_left_exact [] es = ([], refl, ((λ h. refl), (λ h. refl)))
send_left_exact (c ∷ left) [] = (c ∷ left, refl, ((λ h. absurd cc), (λ h. absurd cc)))
send_left_exact (c ∷ left) (sent n ∷ es) =
    let (rest, e, i) = send_left_exact (drop n (c ∷ left)) es in
    (
      rest,
      append_assoc (take n (c ∷ left)) _ rest
          ∙ (ap (◌++◌ (take n (c ∷ left))) e ∙ take-append-drop n (c ∷ left)),
      i,
    )
send_left_exact (c ∷ left) (send_failed ∷ es) =
    (c ∷ left, refl, ((λ h. absurd cc), (λ h. absurd cc)))
send_left_exact (c ∷ left) (shutdown_requested ∷ es) =
    (c ∷ left, refl, ((λ h. absurd cc), (λ h. absurd cc)))

-- Where no shutdown is seen before the loop: whatever the sends write, the bytes on the wire and some
-- rest are the response, and the result says that all is sent exactly if there is no rest. So no byte
-- is lost, doubled or out of order.
pub send_response_exact :
    (response : Bytes) (es : List SendEvent)
    → (rest : Bytes) × ((send_response_safe false response es).1 ++ rest ≡ response)
      × (((send_response_safe false response es).0 ≡ all_sent) ↔ (rest ≡ []))
unfolding send_response_safe
send_response_exact response es = send_left_exact response es

-- A send that writes at least one byte.
abbrev pub Progresses : SendEvent → Type 0
Progresses (sent n) = 0 < n
Progresses _ = 1 < 0

send_left_finishes :
    (response : Bytes) (es : List SendEvent)
    → All Progresses es
    → length response ≤ length es
    → send_left response es ≡ (all_sent, response)
unfolding send_left
send_left_finishes [] es h k = refl
send_left_finishes (c ∷ left) [] h k = absurd (omega arith)
send_left_finishes (c ∷ left) (sent n ∷ es) h k =
    rw
      (send_left_finishes (drop n (c ∷ left)) es h.1 (omega (arith, h.0, length-drop n (c ∷ left))))
      (ap (λ t. (all_sent, t)) (take-append-drop n (c ∷ left)))
send_left_finishes (c ∷ left) (send_failed ∷ es) h k = absurd (omega (arith, h.0))
send_left_finishes (c ∷ left) (shutdown_requested ∷ es) h k = absurd (omega (arith, h.0))

-- Where no shutdown is seen before the loop, as many successful sends of at least one byte each as the
-- response has bytes are enough to send it all.
pub send_response_finishes :
    (response : Bytes) (es : List SendEvent)
    → All Progresses es
    → length response ≤ length es
    → send_response_safe false response es ≡ (all_sent, response)
unfolding send_response_safe
send_response_finishes response es h k = send_left_finishes response es h k
