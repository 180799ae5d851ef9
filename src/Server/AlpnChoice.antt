-- ===== src/Server/AlpnChoice.antt =====
-- `alpn_select_callback` of src/core/server.cpp on a well-formed list of protocol names (RFC 7301).
use web_server_http.Common.{
  ℕ, zero, suc, ◌≤◌, Bool, true, false, List, [], ◌∷◌, ◌++◌, ◌≡◌, refl, ap, ◌&&◌, ◌||◌, length,
  Bytes, codes, equal, equal_iff, is_prefix, take-append, drop-append, length-append, none, some,
  ◌==◌, Bool-cases, inl, inr, if◌then◌else◌, arith,
}
use web_server_http.Server.Alpn.{find_protocol, alpn_select_callback}

-- The wire form of a list of names: each behind its length.
unfoldable pub offer : List Bytes → Bytes
offer [] = []
offer (p ∷ ps) = length p ∷ (p ++ offer ps)

unfoldable pub offers : Bytes → List Bytes → Bool
unfolding equal
offers p [] = false
offers p (q ∷ qs) = equal p q || offers p qs

is_prefix_exact : (p q rest : Bytes) → length q ≡ length p → is_prefix p (q ++ rest) ≡ equal p q
unfolding is_prefix equal
is_prefix_exact [] [] rest h = refl
is_prefix_exact [] (y ∷ q) rest h = absurd (omega (arith, h))
is_prefix_exact (x ∷ p) [] rest h = absurd (omega (arith, h))
is_prefix_exact (x ∷ p) (y ∷ q) rest h =
    ap (λ t. (x == y) && t) (is_prefix_exact p q rest (omega (arith, h)))

equal-length : (p q : Bytes) → equal p q ≡ true → length p ≡ length q
equal-length p q h = ap length ((equal_iff p q).0 h)

-- One name of the list.
round :
    (fuel : ℕ) (p q rest : Bytes)
    → find_protocol (suc fuel) (length p ∷ p) (length q ∷ (q ++ rest))
      ≡ (if equal p q then some q else find_protocol fuel (length p ∷ p) rest)
unfolding find_protocol is_prefix
round fuel p q rest = elim (Bool-cases (length p == length q)) [
  | inl e ↦ ground (
    arith,
    e,
    is_prefix_exact p q rest,
    take-append q rest,
    drop-append q rest,
    length-append q rest,
  )
  | inr e ↦
      ground
        (arith, e, equal-length p q, take-append q rest, drop-append q rest, length-append q rest)
]

find_protocol-offer :
    (fuel : ℕ) (p : Bytes) (ps : List Bytes)
    → length (offer ps) ≤ fuel
    → find_protocol fuel (length p ∷ p) (offer ps) ≡ (if offers p ps then some p else none)
unfolding offer offers
find_protocol-offer zero p [] h = unfold find_protocol in refl
find_protocol-offer (suc fuel) p [] h = unfold find_protocol in refl
find_protocol-offer zero p (q ∷ ps) h = absurd (omega (arith, h))
find_protocol-offer (suc fuel) p (q ∷ ps) h = ground (
  arith,
  round fuel p q (offer ps),
  equal_iff p q,
  find_protocol-offer fuel p ps (omega (arith, h, length-append q (offer ps))),
)

-- On the wire form of any list of names, `alpn_select_callback` chooses "h2" if HTTP/2 is enabled and
-- the client offers it, else "http/1.1" if the client offers it, and else nothing: the order of the
-- client's list does not matter.
pub alpn_select_callback-offer :
    (http2_enabled : Bool) (ps : List Bytes)
    → alpn_select_callback http2_enabled (offer ps) ≡ (
        if http2_enabled && offers (codes "h2") ps
        then some (codes "h2")
        else if offers (codes "http/1.1") ps
        then some (codes "http/1.1")
        else none)
unfolding alpn_select_callback
alpn_select_callback-offer http2_enabled ps = ground (
  arith,
  find_protocol-offer (length (offer ps)) (codes "h2") ps (omega arith),
  find_protocol-offer (length (offer ps)) (codes "http/1.1") ps (omega arith),
)
