-- ===== src/Http2/Priority.antt =====
-- Stream priorities of http2_handler.cpp.
use web_server_http.Common.{ℕ, Bool, Option, none, some}
use web_server_http.Common.Dict.{lookup, insert, nat_key}
use web_server_http.Http2.State.{Http2Handler, StreamPriority, default_priority, priority, submit}

abbrev prioritised : ℕ → ℕ → ℕ → Bool → StreamPriority
prioritised id dependency weight exclusive = record {
  stream_id = id;
  dependency = dependency;
  weight = weight;
  exclusive = exclusive;
}

unfoldable pub set_stream_priority : ℕ → ℕ → ℕ → Bool → Http2Handler → Http2Handler
unfolding insert
set_stream_priority id dependency weight exclusive h =
    submit (priority id dependency weight exclusive) (record h {
      stream_priorities =
          insert id (prioritised id dependency weight exclusive) h.stream_priorities;
    })

unfoldable pub update_stream_priority : ℕ → ℕ → ℕ → Bool → Http2Handler → Http2Handler
unfolding lookup insert set_stream_priority
update_stream_priority id dependency weight exclusive h = elim (lookup id h.stream_priorities) [
  | none ↦ set_stream_priority id dependency weight exclusive h
  | some old ↦ record h {
    stream_priorities =
        insert id (record old { dependency = dependency; weight = weight; exclusive = exclusive })
          h.stream_priorities;
  }
]

abbrev or_default : Option StreamPriority → StreamPriority
or_default none = default_priority
or_default (some p) = p

unfoldable pub get_stream_priority : ℕ → Http2Handler → StreamPriority
unfolding lookup
get_stream_priority id h = or_default (lookup id h.stream_priorities)

unfoldable pub handle_priority_frame : ℕ → ℕ → ℕ → Bool → Http2Handler → Http2Handler
unfolding insert
handle_priority_frame id dependency weight exclusive h = record h {
  stream_priorities = insert id (prioritised id dependency weight exclusive) h.stream_priorities;
}
