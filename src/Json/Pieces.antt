-- ===== src/Json/Pieces.antt =====
-- Items pushed one after the other, and the beginnings of texts that `to_string` writes.
use web_server_http.Common.{
  true, [], ◌∷◌, ◌++◌, ◌≡◌, refl, ap, ◌∙◌, sym, append_assoc, Bytes, is_digit, is_space, arith,
}
use web_server_http.Json.Parse.{skip_whitespace}
use web_server_http.Json.ParseSteps.{opens_text, starts_number, opens-first}
use web_server_http.Json.Value.{JsonValue, Items, nil, cons, push_item}

pub opens_text-append : (s r : Bytes) → opens_text s ≡ true → opens_text (s ++ r) ≡ true
opens_text-append [] r h = absurd (ground (arith, h))
opens_text-append (c ∷ s) r h = h

pub opens_text-number : (s : Bytes) → starts_number s ≡ true → opens_text s ≡ true
unfolding is_space is_digit
opens_text-number [] h = absurd (ground (arith, h))
opens_text-number (c ∷ s) h = ground (arith, h)

pub starts_number-append : (s r : Bytes) → starts_number s ≡ true → starts_number (s ++ r) ≡ true
starts_number-append [] r h = absurd (ground (arith, h))
starts_number-append (c ∷ s) r h = h

-- The text of a field, behind the brace or the comma.
pub field-regroup : (q t u r : Bytes) → (q ++ b':' ∷ (t ++ u)) ++ r ≡ q ++ b':' ∷ (t ++ (u ++ r))
field-regroup q t u r =
    append_assoc q (b':' ∷ (t ++ u)) r ∙ ap (λ s. q ++ b':' ∷ s) (append_assoc t u r)

pub skip_whitespace-opens : (s : Bytes) → opens_text s ≡ true → skip_whitespace s ≡ s
skip_whitespace-opens [] h = absurd (ground (arith, h))
skip_whitespace-opens (c ∷ s) h = (opens-first c s h).0

module _ {N : Type 0} where
  -- The items of a text, pushed one after the other.
  abbrev pub push_items : Items N → Items N → Items N
  push_items xs nil = xs
  push_items xs (cons v vs) = push_items (push_item xs v) vs

  abbrev pub append_items : Items N → Items N → Items N
  append_items nil ys = ys
  append_items (cons v xs) ys = cons v (append_items xs ys)

  push_item-last :
      (xs : Items N) (v : JsonValue N) (ys : Items N)
      → append_items (push_item xs v) ys ≡ append_items xs (cons v ys)
  unfolding push_item
  push_item-last nil v ys = refl
  push_item-last (cons w xs) v ys = ap (cons w) (push_item-last xs v ys)

  append_items-nil : (xs : Items N) → append_items xs nil ≡ xs
  append_items-nil nil = refl
  append_items-nil (cons v xs) = ap (cons v) (append_items-nil xs)

  pub push_items-append : (xs vs : Items N) → push_items xs vs ≡ append_items xs vs
  push_items-append xs nil = sym (append_items-nil xs)
  push_items-append xs (cons v vs) = push_items-append (push_item xs v) vs ∙ push_item-last xs v vs

  pub push_items-nil : (vs : Items N) → push_items nil vs ≡ vs
  push_items-nil vs = push_items-append nil vs
