-- ===== src/Server/Http2Connection/Handover.antt =====
-- What reaches nghttp2 of the bytes of an HTTP/2 connection.
use web_server_http.Common.{
  ℕ, Bool, true, false, List, [], ◌∷◌, ◌++◌, ◌≡◌, refl, sym, ◌∙◌, ap, subst, ap₂, ◌||◌, not, Option,
  none, some, if◌then◌else◌, is_empty, is_prefix, drop, Bytes, append_assoc, append-nil, arith,
}
use web_server_http.Http2.Transport.{Processed, process_data, connection_preface}
use web_server_http.Server.Http2Connection.{
  Incoming, arrived, nothing_yet, over, Http2Round, Http2End, closed, waiting, After, breaks,
  continues, write_half, read_half, http2_round, http2_loop, handle_http2_connection,
  handle_tls_http2_connection,
}

unfoldable pub bytes_of : Incoming → Bytes
bytes_of (arrived chunk) = chunk
bytes_of _ = []

-- The bytes that the reads of the rounds bring.
unfoldable pub all_arrived : List Http2Round → Bytes
unfolding bytes_of
all_arrived [] = []
all_arrived (r ∷ rs) = (if r.want_read then bytes_of r.incoming else []) ++ all_arrived rs

-- The first result is the beginning of the bytes, and all of them if the loop has not been left.
abbrev pub Exactly : Bytes → Bytes × Http2End → Type 0
Exactly all (handed, last) = (rest : Bytes) × (handed ++ rest ≡ all) × (last ≡ waiting → rest ≡ [])

-- Behind the preface, or over TLS, `process_data` hands over all that it is given.
process_data-all :
    (is_tls processed : Bool) (result : Option ℕ) (flushed : Bool) (chunk : Bytes)
    → is_tls || processed ≡ true
    → ((process_data is_tls processed result flushed chunk).handed_over ≡ chunk)
      × ((is_tls || (process_data is_tls processed result flushed chunk).preface_processed) ≡ true)
unfolding process_data is_prefix
process_data-all true processed result flushed [] h = (refl, refl)
process_data-all true processed result flushed (c ∷ chunk) h = (refl, refl)
process_data-all false true result flushed [] h = (refl, refl)
process_data-all false true result flushed (c ∷ chunk) h = (refl, refl)
process_data-all false false result flushed chunk h = absurd (ground (arith, h))

-- A round hands over a beginning of what it brings, and all of it if the loop goes on.
abbrev Round : Bool → Bytes → Bytes × Bool × After → Type 0
Round is_tls brought (handed, processed, after) =
    (is_tls || processed ≡ true)
    × ((rest : Bytes) × (handed ++ rest ≡ brought) × (after ≡ continues → rest ≡ []))

nothing_handed :
    (is_tls processed : Bool) (brought : Bytes)
    → is_tls || processed ≡ true
    → Round is_tls brought ([], processed, breaks)
nothing_handed is_tls processed brought h = (h, (brought, refl, λ e. absurd (ground (arith, e))))

read_half-Round :
    (is_tls processed : Bool) (r : Http2Round) (i : Incoming)
    → is_tls || processed ≡ true
    → Round is_tls (bytes_of i) (read_half is_tls processed r i)
unfolding read_half bytes_of
read_half-Round is_tls processed r over h = (h, ([], refl, λ e. refl))
read_half-Round is_tls processed r nothing_yet h = (h, ([], refl, λ e. refl))
read_half-Round is_tls processed r (arrived chunk) h =
    let (all, still) = process_data-all is_tls processed r.recv_result r.flushed chunk h in
    (still, ([], append-nil _ ∙ all, λ e. refl))

Round-if :
    (is_tls b : Bool) (brought : Bytes) (x y : Bytes × Bool × After)
    → Round is_tls brought x
    → Round is_tls brought y
    → Round is_tls brought (if b then x else y)
Round-if is_tls true brought x y h k = h
Round-if is_tls false brought x y h k = k

Round-reads :
    (is_tls b : Bool) (brought : Bytes) (x y : Bytes × Bool × After)
    → Round is_tls brought x
    → Round is_tls [] y
    → Round is_tls (if b then brought else []) (if b then x else y)
Round-reads is_tls true brought x y h k = h
Round-reads is_tls false brought x y h k = k

http2_round-Round :
    (is_tls processed : Bool) (r : Http2Round)
    → is_tls || processed ≡ true
    → Round is_tls
        (if r.want_read then bytes_of r.incoming else [])
        (http2_round is_tls processed r)
unfolding http2_round
http2_round-Round is_tls processed r h =
    let brought = if r.want_read then bytes_of r.incoming else [] in
    let reads = read_half is_tls processed r r.incoming in
    let writes : Bytes × Bool × After = ([], processed, write_half r) in
    let over_now : Bytes × Bool × After = ([], processed, breaks) in
    Round-if is_tls (r.shutdown_requested || not (r.want_read || r.want_write)) brought over_now
      (if r.want_read then reads else writes) (nothing_handed is_tls processed brought h)
      (Round-reads is_tls r.want_read (bytes_of r.incoming) reads writes
        (read_half-Round is_tls processed r r.incoming h) (h, ([], refl, λ e. refl)))

loop_step :
    (brought all : Bytes) (handed : Bytes) (after : After) (later : Bytes × Http2End)
    → ((rest : Bytes) × (handed ++ rest ≡ brought) × (after ≡ continues → rest ≡ []))
    → Exactly all later
    → Exactly
        (brought ++ all)
        (elim after [ breaks ↦ (handed, closed) | continues ↦ (handed ++ later.0, later.1) ])
loop_step brought all handed breaks later (rest, e, f) k = (
  rest ++ all,
  sym (append_assoc handed rest all) ∙ ap (λ xs. xs ++ all) e,
  λ q. absurd (ground (arith, q)),
)
loop_step brought all handed continues later (rest, e, f) (rest', e', f') =
    let whole : handed ≡ brought =
      sym (append-nil handed) ∙ (ap (λ r. handed ++ r) (sym (f refl)) ∙ e) in
    (rest', append_assoc handed later.0 rest' ∙ ap₂ (◌++◌) whole e', f')

http2_loop-all :
    (is_tls processed : Bool) (rs : List Http2Round)
    → is_tls || processed ≡ true
    → Exactly (all_arrived rs) (http2_loop is_tls processed rs)
unfolding all_arrived http2_loop
http2_loop-all is_tls processed [] h = ([], refl, λ e. refl)
http2_loop-all is_tls processed (r ∷ rs) h =
    let (still, step) = http2_round-Round is_tls processed r h in
    let (handed, processed', after) = http2_round is_tls processed r in
    loop_step (if r.want_read then bytes_of r.incoming else []) (all_arrived rs) handed after
      (http2_loop is_tls processed' rs) step (http2_loop-all is_tls processed' rs still)

empty_or_not : (s : Bytes) → (if is_empty s then [] else s) ≡ s
empty_or_not [] = refl
empty_or_not (c ∷ s) = refl

handed_if :
    (b : Bool) (x y : Processed)
    → (if b then x else y).handed_over ≡ (if b then x.handed_over else y.handed_over)
handed_if true x y = refl
handed_if false x y = refl

seen_if :
    (b : Bool) (x y : Processed)
    → x.preface_processed ≡ true
    → y.preface_processed ≡ true
    → (if b then x else y).preface_processed ≡ true
seen_if true x y e f = e
seen_if false x y e f = f

process_data-preface :
    (result : Option ℕ) (flushed : Bool) (initial : Bytes)
    → is_prefix connection_preface initial ≡ true
    → let p = process_data false false result flushed initial in
      (p.handed_over ≡ drop 24 initial) × (p.preface_processed ≡ true)
unfolding process_data
process_data-preface result flushed initial h =
    rw (h, process_data)
      (
        handed_if (is_empty (drop 24 initial)) _ _ ∙ empty_or_not (drop 24 initial),
        seen_if (is_empty (drop 24 initial)) _ _ refl refl,
      )

first_step :
    (first : Bytes) (all : Bytes) (answer : Option ℕ) (later : Bytes × Http2End)
    → Exactly all later
    → Exactly
        (first ++ all)
        (elim answer [ none ↦ (first, closed) | some n ↦ (first ++ later.0, later.1) ])
first_step first all none later k = (all, refl, λ q. absurd (ground (arith, q)))
first_step first all (some n) later (rest, e, f) =
    (rest, append_assoc first later.0 rest ∙ ap (λ xs. first ++ xs) e, f)

-- Without TLS.
handle_http2_connection-all :
    (initial : Bytes) (result : Option ℕ) (flushed : Bool) (rs : List Http2Round)
    → is_prefix connection_preface initial ≡ true
    → Exactly
        (drop 24 initial ++ all_arrived rs)
        (handle_http2_connection true initial result flushed rs)
unfolding handle_http2_connection
handle_http2_connection-all [] result flushed rs h = absurd (ground (arith, h))
handle_http2_connection-all (c ∷ initial) result flushed rs h =
    let p = process_data false false result flushed (c ∷ initial) in
    let (handed, seen) = process_data-preface result flushed (c ∷ initial) h in
    subst
      (λ first.
        Exactly (first ++ all_arrived rs)
          (handle_http2_connection true (c ∷ initial) result flushed rs))
      handed
      (first_step p.handed_over (all_arrived rs) p.result (http2_loop false p.preface_processed rs)
        (http2_loop-all false p.preface_processed rs seen))

-- Where the handler can be initialized, the loops for HTTP/2 give nghttp2 what the reads bring, without
-- a gap and in order: the whole of it while they go on, and a beginning of it once they are left. Without
-- TLS, for a connection whose first data begin with the preface, that is what stands behind the preface.
pub handle_http2_connections-all :
    (initial : Bytes) (result : Option ℕ) (flushed : Bool) (rs : List Http2Round)
    → is_prefix connection_preface initial ≡ true
    → Exactly
        (drop 24 initial ++ all_arrived rs)
        (handle_http2_connection true initial result flushed rs)
      × Exactly (all_arrived rs) (handle_tls_http2_connection true rs)
handle_http2_connections-all initial result flushed rs h = (
  handle_http2_connection-all initial result flushed rs h,
  unfold handle_tls_http2_connection in http2_loop-all true false rs refl,
)
