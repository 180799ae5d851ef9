-- ===== src/Server/Tls/Ownership.antt =====
-- Which OpenSSL objects are made and freed by the TLS code of src/core/server.cpp.
use web_server_http.Common.{
  ℕ, ◌+◌, ◌≤◌, ◌∙◌, map, not, Bool, true, false, List, [], ◌∷◌, ◌++◌, ◌≡◌, refl, ◌||◌, ◌&&◌, Option,
  none, some, Option-cases, Bool-cases, inl, inr, if◌then◌else◌, is_empty, Bytes, codes, ◌==◌,
  ==_self, arith, equal,
}
use web_server_http.Metrics.{PerformanceMetrics}
use web_server_http.Server.Alpn.{alpn_select_callback}
use web_server_http.Server.AlpnChoice.{offer, offers, alpn_select_callback-offer}
use web_server_http.Server.Api.{Environment}
use web_server_http.Server.Io.{Round}
use web_server_http.Server.State.{Server}
use web_server_http.Server.Tls.Connection.{
  SslUse, SslCall, ssl_new, ssl_set_fd, ssl_accept, ssl_get0_alpn_selected, ssl_used, ssl_shutdown,
  ssl_free, Handshake, Route, refused, to_http2, to_http, create_ssl_connection,
  perform_alpn_negotiation, route_of, tls_route, negotiation_calls, serving_calls, closing_calls,
  handle_tls_connection,
}
use web_server_http.Server.Tls.Context.{
  TlsState, Answers, held, certificate_ok, initialize_ssl_context, cleanup_ssl_context, enable_tls,
}

-- The contexts that a call of `enable_tls` makes.
abbrev pub contexts_made : Bool → Option ℕ → List ℕ
contexts_made true c = held c
contexts_made false c = []

abbrev pub is_some : Option ℕ → Bool
is_some none = false
is_some (some c) = true

-- Starting without a context, `enable_tls` frees or holds each context that it makes, once, and TLS is
-- enabled afterwards exactly if there is a context: every failure on the way switches TLS off again.
pub enable_tls_lem :
    (a : Answers) (enable : Bool) (cert key : Bytes) (s : TlsState)
    → s.ssl_ctx ≡ none
    → let (after, freed) = enable_tls a enable cert key s in
      (freed ++ held after.ssl_ctx ≡ contexts_made enable a.new_context)
      × (after.tls_enabled ≡ is_some after.ssl_ctx)
unfolding enable_tls initialize_ssl_context cleanup_ssl_context
enable_tls_lem a true cert key s e = elim (Option-cases a.new_context) [
  | inl n ↦ rw (n, enable_tls) (refl, refl)
  | inr (c, n) ↦
      let s' : TlsState = record s { tls_enabled = true; cert_file = cert; key_file = key } in
      elim (Bool-cases (certificate_ok a s' && a.protocols_set)) [
        | inl f ↦ rw (n, f, enable_tls) (refl, refl)
        | inr f ↦ rw (n, f, enable_tls) (refl, refl)
      ]
]
enable_tls_lem a false cert key s e = rw (e, enable_tls) (refl, refl)

unfoldable pub member : ℕ → List ℕ → Bool
member h [] = false
member h (x ∷ xs) = x == h || member h xs

unfoldable pub without : ℕ → List ℕ → List ℕ
without h [] = []
without h (x ∷ xs) = if x == h then xs else x ∷ without h xs

-- With these objects alive before, every call is on an object that is alive, and none is alive at the
-- end.
unfoldable pub disciplined : List ℕ → List SslCall → Bool
unfolding member without
disciplined alive [] = is_empty alive
disciplined alive (ssl_new h ∷ calls) = disciplined (h ∷ alive) calls
disciplined alive (ssl_set_fd h ∷ calls) = member h alive && disciplined alive calls
disciplined alive (ssl_accept h ∷ calls) = member h alive && disciplined alive calls
disciplined alive (ssl_get0_alpn_selected h ∷ calls) = member h alive && disciplined alive calls
disciplined alive (ssl_used u h ∷ calls) = member h alive && disciplined alive calls
disciplined alive (ssl_shutdown h ∷ calls) = member h alive && disciplined alive calls
disciplined alive (ssl_free h ∷ calls) = member h alive && disciplined (without h alive) calls

-- How many objects are made.
unfoldable pub made : List SslCall → ℕ
made [] = 0
made (ssl_new h ∷ calls) = 1 + made calls
made (call ∷ calls) = made calls

-- While an object is alive, its use by a loop changes nothing.
used_while_alive :
    (ssl : ℕ) (uses : List SslUse) (rest : List SslCall)
    → (disciplined (ssl ∷ []) (map (λ u. ssl_used u ssl) uses ++ rest)
        ≡ disciplined (ssl ∷ []) rest)
      × (made (map (λ u. ssl_used u ssl) uses ++ rest) ≡ made rest)
unfolding disciplined made member
used_while_alive ssl [] rest = (refl, refl)
used_while_alive ssl (u ∷ uses) rest =
    let (d, n) = used_while_alive ssl uses rest in (ground (arith, ==_self ssl, d), n)

-- The calls on an object that is alive end with its only release, and make none.
abbrev Served : ℕ → List SslCall → Type 0
Served ssl calls = (disciplined (ssl ∷ []) calls ≡ true) × (made calls ≡ 0)

closing : (ssl : ℕ) (r : Route) → Served ssl (closing_calls (some ssl) r)
unfolding disciplined made member without closing_calls
closing ssl refused = (ground (arith, ==_self ssl), refl)
closing ssl to_http2 = (ground (arith, ==_self ssl), refl)
closing ssl to_http = (ground (arith, ==_self ssl), refl)

serving :
    (ssl : ℕ) (r : Route) (uses : List SslUse)
    → Served ssl (serving_calls (some ssl) r uses ++ closing_calls (some ssl) r)
unfolding serving_calls
serving ssl refused uses = closing ssl refused
serving ssl to_http2 uses =
    let (d, n) = used_while_alive ssl uses (closing_calls (some ssl) to_http2) in
    (d ∙ (closing ssl to_http2).0, n ∙ (closing ssl to_http2).1)
serving ssl to_http uses =
    let (d, n) = used_while_alive ssl uses (closing_calls (some ssl) to_http) in
    (d ∙ (closing ssl to_http).0, n ∙ (closing ssl to_http).1)

negotiated :
    (ssl : ℕ) (accepted : Bool) (calls : List SslCall)
    → Served ssl calls
    → Served ssl (negotiation_calls (some ssl) accepted ++ calls)
unfolding disciplined made member negotiation_calls
negotiated ssl false calls (d, n) = (ground (arith, ==_self ssl, d), n)
negotiated ssl true calls (d, n) = (ground (arith, ==_self ssl, d), n)

one_object :
    (h : Handshake) (route : Option ℕ → Route)
    → let (ssl, opening) = create_ssl_connection h.ssl_ctx h.new_ssl h.fd_set in
      let calls =
        opening
        ++ (negotiation_calls ssl h.accepted
            ++ (serving_calls ssl (route ssl) h.uses ++ closing_calls ssl (route ssl))) in
      (disciplined [] calls ≡ true) × (made calls ≤ 1)
unfolding create_ssl_connection disciplined made member without negotiation_calls serving_calls
    closing_calls
one_object h route = by_answers h.ssl_ctx h.new_ssl h.fd_set
  where
    by_answers :
        (ctx new_ssl : Option ℕ) (fd_set : Bool)
        → let (ssl, opening) = create_ssl_connection ctx new_ssl fd_set in
          let calls =
            opening
            ++ (negotiation_calls ssl h.accepted
                ++ (serving_calls ssl (route ssl) h.uses ++ closing_calls ssl (route ssl))) in
          (disciplined [] calls ≡ true) × (made calls ≤ 1)
    by_answers none new_ssl fd_set = (refl, omega arith)
    by_answers (some ctx) none fd_set = (refl, omega arith)
    by_answers (some ctx) (some ssl) false = (ground (arith, ==_self ssl), omega arith)
    by_answers (some ctx) (some ssl) true =
        let r = route (some ssl) in
        let rest = serving_calls (some ssl) r h.uses ++ closing_calls (some ssl) r in
        let (d, n) = negotiated ssl h.accepted rest (serving ssl r h.uses) in
        (ground (arith, ==_self ssl, d), omega (arith, n))

-- Whatever OpenSSL answers, whichever loop serves the connection and whatever it calls on the object
-- that it is given, `handle_tls_connection` makes at most one SSL object, calls no function on an
-- object that it did not make or has freed, and has freed all at the end.
pub handle_tls_connection-disciplined :
    (env : Environment) (h : Handshake) (s : Server) (m : PerformanceMetrics) (rounds : List Round)
    → (disciplined [] (handle_tls_connection env h s m rounds).1 ≡ true)
      × (made (handle_tls_connection env h s m rounds).1 ≤ 1)
unfolding handle_tls_connection
handle_tls_connection-disciplined env h s m rounds = one_object h (tls_route h)

-- Where the callback chooses nothing it answers with the fatal alert.
abbrev pub chosen : Option Bytes → Bool
chosen none = false
chosen (some p) = true

-- Let a client offer protocols, let OpenSSL select what `alpn_select_callback` chooses, and let the
-- handshake fail where it chooses nothing, which is the fatal alert, or where it fails otherwise. Then a
-- client whose handshake does not fail otherwise is served by the loop for HTTP/2 if HTTP/2 is enabled
-- and it offered "h2", else by the loop for HTTP/1.1 if it offered "http/1.1", and else refused.
pub tls_route-alpn :
    (h : Handshake) (ssl : ℕ) (http2_enabled completes : Bool) (ps : List Bytes)
    → h.selected ≡ alpn_select_callback http2_enabled (offer ps)
    → h.accepted ≡ (completes && chosen (alpn_select_callback http2_enabled (offer ps)))
    → tls_route h (some ssl) ≡ (
        if not completes
        then refused
        else if http2_enabled && offers (codes "h2") ps
        then to_http2
        else if offers (codes "http/1.1") ps
        then to_http
        else refused)
unfolding tls_route route_of perform_alpn_negotiation equal
tls_route-alpn h ssl http2_enabled completes ps e a =
    let two = http2_enabled && offers (codes "h2") ps in
    let one = offers (codes "http/1.1") ps in
    rw (a, e, alpn_select_callback-offer http2_enabled ps, tls_route)
      (elim (Bool-cases completes) [
        | inr c ↦ rw (c) refl
        | inl c ↦ elim (Bool-cases two) [
          | inl q ↦ rw (c, q) refl
          | inr q ↦ elim (Bool-cases one) [ inl r ↦ rw (c, q, r) refl | inr r ↦ rw (c, q, r) refl ]
        ]
      ])
