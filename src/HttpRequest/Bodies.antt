-- ===== src/HttpRequest/Bodies.antt =====
-- The body of a request: its lines, put together again.
use web_server_http.Common.{
  ℕ, Bool, true, false, [], ◌∷◌, ◌≡◌, refl, ap, ◌∙◌, sym, ◌==◌, ==_iff, if◌then◌else◌, drop_last,
  get_last_or, Bytes, getlines, push_front, Bool-cases, List-cases, inl, inr,
}
use web_server_http.HttpRequest.{join_lines, body_of}

-- The text with a newline at its end, unless it is empty or has one.
abbrev closed : Bytes → Bytes
closed [] = []
closed (x ∷ []) = if x == b'\n' then x ∷ [] else x ∷ b'\n' ∷ []
closed (x ∷ y ∷ s) = x ∷ closed (y ∷ s)

join-push_front :
    (x y : ℕ) (s : Bytes)
    → join_lines (push_front x (getlines b'\n' (y ∷ s))) ≡ x ∷ join_lines (getlines b'\n' (y ∷ s))
unfolding join_lines getlines
join-push_front x y s = elim (Bool-cases (y == b'\n')) [
  | inl q ↦ rw (q, getlines) refl
  | inr q ↦ elim (List-cases (getlines b'\n' s)) [
    | inl e ↦ rw (q, e, getlines) refl
    | inr (l, ls, e) ↦ rw (q, e, getlines) refl
  ]
]

join-getlines : (s : Bytes) → join_lines (getlines b'\n' s) ≡ closed s
unfolding join_lines getlines
join-getlines [] = refl
join-getlines (x ∷ []) = elim (Bool-cases (x == b'\n')) [
  | inl q ↦ rw q (ap (λ c. c ∷ []) (sym ((==_iff x b'\n').0 q)))
  | inr q ↦ rw q refl
]
join-getlines (x ∷ y ∷ s) = elim (Bool-cases (x == b'\n')) [
  | inl q ↦
      rw (q, getlines)
        (ap (λ c. c ∷ join_lines (getlines b'\n' (y ∷ s))) (sym ((==_iff x b'\n').0 q))
          ∙ ap (◌∷◌ x) (join-getlines (y ∷ s)))
  | inr q ↦ rw (q, getlines) (join-push_front x y s ∙ ap (◌∷◌ x) (join-getlines (y ∷ s)))
]

-- The text less one newline at its end.
abbrev pub less_newline : Bytes → Bytes
less_newline s = if get_last_or s 0 == b'\n' then drop_last s else s

closed-newline : (x : ℕ) (s : Bytes) (d : ℕ) → get_last_or (closed (x ∷ s)) d ≡ b'\n'
closed-newline x [] d = elim (Bool-cases (x == b'\n')) [
  | inl q ↦ rw q ((==_iff x b'\n').0 q)
  | inr q ↦ rw q refl
]
closed-newline x (y ∷ s) d = closed-newline y s x

drop_last-closed_cons :
    (x y : ℕ) (s : Bytes) → drop_last (x ∷ closed (y ∷ s)) ≡ x ∷ drop_last (closed (y ∷ s))
drop_last-closed_cons x y [] = elim (Bool-cases (y == b'\n')) [
  | inl q ↦ rw q refl
  | inr q ↦ rw q refl
]
drop_last-closed_cons x y (z ∷ s) = refl

cons_if : (x : ℕ) (b : Bool) (s t : Bytes) → x ∷ (if b then s else t) ≡ (if b then x ∷ s else x ∷ t)
cons_if x true s t = refl
cons_if x false s t = refl

drop_last-closed :
    (x : ℕ) (s : Bytes) (d : ℕ)
    → drop_last (closed (x ∷ s))
      ≡ (if get_last_or (x ∷ s) d == b'\n' then drop_last (x ∷ s) else x ∷ s)
drop_last-closed x [] d = elim (Bool-cases (x == b'\n')) [ inl q ↦ rw q refl | inr q ↦ rw q refl ]
drop_last-closed x (y ∷ s) d =
    drop_last-closed_cons x y s
    ∙ ap (◌∷◌ x) (drop_last-closed y s x)
    ∙ cons_if x (get_last_or s y == b'\n') (drop_last (y ∷ s)) (y ∷ s)

pub body_of-getlines : (s : Bytes) → body_of (getlines b'\n' s) ≡ less_newline s
unfolding body_of getlines join_lines
body_of-getlines [] = refl
body_of-getlines (x ∷ s) =
    let e : join_lines (getlines b'\n' (x ∷ s)) ≡ closed (x ∷ s) = join-getlines (x ∷ s) in
    rw (e, closed-newline x s 0, body_of) (drop_last-closed x s 0)
