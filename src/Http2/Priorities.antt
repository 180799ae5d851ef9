-- ===== src/Http2/Priorities.antt =====
-- The stream priorities of src/handlers/http2_handler.cpp after an update.
use web_server_http.Common.{
  ℕ, Bool, false, ◌≡◌, refl, ap, ◌∙◌, some, Option-cases, inl, inr, if◌then◌else◌, ◌==◌,
}
use web_server_http.Common.Dict.{lookup, insert, lookup-insert, lookup-insert_self, nat_key}
use web_server_http.Http2.Priority.{
  set_stream_priority, update_stream_priority, get_stream_priority,
}
use web_server_http.Http2.State.{Http2Handler, StreamPriority}

module _ (id dependency weight : ℕ) (exclusive : Bool) (h : Http2Handler) where
  abbrev updated : Http2Handler
  updated = update_stream_priority id dependency weight exclusive h

  -- The table gets one entry, with the three values.
  entry :
      (p : StreamPriority) × ((updated).stream_priorities ≡ insert id p h.stream_priorities)
      × (p.dependency ≡ dependency)
      × (p.weight ≡ weight)
      × (p.exclusive ≡ exclusive)
  unfolding update_stream_priority set_stream_priority
  entry = elim (Option-cases (lookup id h.stream_priorities)) [
    | inl e ↦ rw (e, update_stream_priority, set_stream_priority) (_, refl, refl, refl, refl)
    | inr (old, e) ↦ rw (e, update_stream_priority) (_, refl, refl, refl, refl)
  ]

  -- Whether or not the stream had a priority, after `update_stream_priority` the stream has the given
  -- dependency, weight and exclusive flag, and every other stream has the priority that it had.
  pub get_stream_priority-update :
      (other : ℕ)
      → (id == other) ≡ false
      → ((get_stream_priority id updated).dependency ≡ dependency)
        × ((get_stream_priority id updated).weight ≡ weight)
        × ((get_stream_priority id updated).exclusive ≡ exclusive)
        × (get_stream_priority other updated ≡ get_stream_priority other h)
  unfolding get_stream_priority
  get_stream_priority-update other ne =
      let (p, table, d, w, x) = entry in
      let own : lookup id updated.stream_priorities ≡ some p =
        ap (lookup id) table ∙ lookup-insert_self id p h.stream_priorities in
      let rest : lookup other updated.stream_priorities ≡ lookup other h.stream_priorities =
        ap (lookup other) table
        ∙ (lookup-insert id other p h.stream_priorities
            ∙ ap (λ b. if b then some p else lookup other h.stream_priorities) ne) in
      rw (own, rest) (d, w, x, refl)
