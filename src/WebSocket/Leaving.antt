-- ===== src/WebSocket/Leaving.antt =====
-- What a session of src/handlers/websocket_handler.cpp does to the table of connections.
use web_server_http.Common.{
  ℕ, false, List, [], ◌∷◌, ◌≡◌, refl, ap, ◌∙◌, Option, none, Bytes, equal, Option-cases, Bool-cases,
  Try-cases, inl, inr, if◌then◌else◌, ◌&&◌, ◌⊎◌,
}
use web_server_http.Common.Dict.{lookup, lookup-erase, lookup-erase_self, bytes_key}
use web_server_http.WebSocket.Connections.{Table, Sent, remove_connection, send_message_to_client}
use web_server_http.WebSocket.Frame.{parse_frame}
use web_server_http.WebSocket.Session.{
  Round, Event, received, would_block, closed, failed, stopped, Reply, hang_up, send_pong, nothing,
  answer, reply_to, End, removed, send_document, session,
}

-- What a session of client `id` may do: all other entries stay, and at its end its own is gone.
abbrev pub Own : Bytes → Table → Table × Sent × End → Type 0
Own id table (after, sent, last) =
    ((x : Bytes) → equal id x ≡ false → lookup x after ≡ lookup x table)
    × (last ≡ removed → lookup id after ≡ none)

Reply-cases :
    (r : Reply) → (r ≡ hang_up) ⊎ ((r ≡ send_pong) ⊎ ((r ≡ nothing) ⊎ ((n : ℕ) × (r ≡ answer n))))
Reply-cases hang_up = inl refl
Reply-cases send_pong = inr (inl refl)
Reply-cases nothing = inr (inr (inl refl))
Reply-cases (answer n) = inr (inr (inr (n, refl)))

module _ (document : ℕ → Option Bytes) (socket : ℕ) (id : Bytes) where
  removing :
      (table : Table) (sent : Sent) → Own id table (remove_connection id table, sent, removed)
  unfolding remove_connection
  removing table sent = (
    (λ x h. lookup-erase id x table ∙ ap (λ b. if b then none else lookup x table) h),
    (λ e. lookup-erase_self id table),
  )

  send_document_others :
      (round : Round) (n : ℕ) (table : Table) (x : Bytes)
      → equal id x ≡ false
      → lookup x (send_document document socket id round n table).0 ≡ lookup x table
  unfolding send_document send_message_to_client
  send_document_others round n table x h = elim (Option-cases (document n)) [
    | inl e ↦ rw (e, send_document) refl
    | inr (text, e) ↦ elim (Bool-cases (round.locked && round.running)) [
      | inr b ↦ rw (e, b, send_document, send_message_to_client) refl
      | inl b ↦ elim (Option-cases (lookup id table)) [
        | inl q ↦ rw (e, b, q, send_document, send_message_to_client) refl
        | inr (conn, q) ↦ elim (Bool-cases round.send_ok) [
          | inl c ↦ rw (e, b, q, c, send_document, send_message_to_client) refl
          | inr c ↦
              rw (e, b, q, c, send_document, send_message_to_client)
                (lookup-erase id x table ∙ ap (λ b. if b then none else lookup x table) h)
        ]
      ]
    ]
  ]

  -- Whatever a client sends and however its session goes, the session changes no other client's entry
  -- in the table, and when it ends by a close, an error or a stop, the client's own entry is gone.
  pub session-Own :
      (table : Table) (es : List Event) → Own id table (session document socket id table es)
  unfolding session
  session-Own table [] = ((λ x h. refl), (λ e. absurd cc))
  session-Own table (would_block ∷ es) = session-Own table es
  session-Own table (closed ∷ es) = removing table []
  session-Own table (failed ∷ es) = removing table []
  session-Own table (stopped ∷ es) = removing table []
  session-Own table (received text round ∷ es) = elim (Try-cases (parse_frame text)) [
    | inr (e, q) ↦ rw (q, session) ((λ x h. refl), (λ h. absurd cc))
    | inl (frame, q) ↦ elim (Reply-cases (reply_to round.running frame)) [
      | inl c ↦ rw (q, c, session) (removing table [])
      | inr (inl c) ↦ elim (Bool-cases round.send_ok) [
        | inl b ↦ rw (q, c, b, session) (session-Own table es)
        | inr b ↦ rw (q, c, b, session) (removing table [])
      ]
      | inr (inr (inl c)) ↦ rw (q, c, session) (session-Own table es)
      | inr (inr (inr (n, c))) ↦
          let next = (send_document document socket id round n table).0 in
          let (others, gone) = session-Own next es in
          rw (q, c, session) ((λ x h. others x h ∙ send_document_others round n table x h), gone)
    ]
  ]
