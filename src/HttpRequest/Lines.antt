-- ===== src/HttpRequest/Lines.antt =====
-- The pieces that `parse` cuts a text into: lines, words and names.
use web_server_http.Common.{
  is_digit, ℕ, Bool, true, false, [], ◌∷◌, ◌++◌, ◌≡◌, refl, ap, ◌∙◌, not, ◌==◌, ==_iff,
  if◌then◌else◌, is_empty, drop_last, get_last_or, none, some, Bytes, is_space, cut, getlines,
  push_front, drop_while, take_while, drop_while_end, Bool-cases, inl, inr, arith,
}
use web_server_http.Common.Digits.{all_digits, some-all, to_string-digits}
use web_server_http.Common.Numbers.{to_string}
use web_server_http.HttpRequest.{is_sp, trim, extract, strip_cr}

-- No byte of the text is `c`; none is white space.
abbrev pub free : ℕ → Bytes → Bool
free c [] = true
free c (x ∷ s) = if x == c then false else free c s

abbrev pub spaceless : Bytes → Bool
spaceless [] = true
spaceless (x ∷ s) = if is_space x then false else spaceless s

pub getlines-line :
    (d : ℕ) (line rest : Bytes)
    → free d line ≡ true
    → getlines d (line ++ d ∷ rest) ≡ line ∷ getlines d rest
unfolding getlines
getlines-line d [] rest h = rw ((==_iff d d).1 refl) refl
getlines-line d (x ∷ line) rest h = elim (Bool-cases (x == d)) [
  | inl q ↦ absurd (ground (arith, q, h))
  | inr q ↦ rw q (ap (push_front x) (getlines-line d line rest (rw q at h)))
]

-- A last line without a delimiter.
pub getlines-last :
    (d x : ℕ) (line : Bytes) → free d (x ∷ line) ≡ true → getlines d (x ∷ line) ≡ (x ∷ line) ∷ []
unfolding getlines
getlines-last d x [] h = elim (Bool-cases (x == d)) [
  | inl q ↦ absurd (ground (arith, q, h))
  | inr q ↦ rw q refl
]
getlines-last d x (y ∷ s) h = elim (Bool-cases (x == d)) [
  | inl q ↦ absurd (ground (arith, q, h))
  | inr q ↦ rw q (ap (push_front x) (getlines-last d y s (rw q at h)))
]

pub getlines-whole :
    (d : ℕ) (s : Bytes) → is_empty s ≡ false → free d s ≡ true → getlines d s ≡ s ∷ []
getlines-whole d [] e h = absurd (ground (arith, e))
getlines-whole d (x ∷ s) e h = getlines-last d x s h

pub free-append : (c : ℕ) (s t : Bytes) → free c s ≡ true → free c t ≡ true → free c (s ++ t) ≡ true
free-append c [] t h k = k
free-append c (x ∷ s) t h k = elim (Bool-cases (x == c)) [
  | inl q ↦ absurd (ground (arith, q, h))
  | inr q ↦ rw q (free-append c s t (rw q at h) k)
]

pub spaceless-append :
    (s t : Bytes) → spaceless s ≡ true → spaceless t ≡ true → spaceless (s ++ t) ≡ true
spaceless-append [] t h k = k
spaceless-append (x ∷ s) t h k = elim (Bool-cases (is_space x)) [
  | inl q ↦ absurd (ground (arith, q, h))
  | inr q ↦ rw q (spaceless-append s t (rw q at h) k)
]

pub get_last_or_snoc : (s : Bytes) (c d : ℕ) → get_last_or (s ++ c ∷ []) d ≡ c
get_last_or_snoc [] c d = refl
get_last_or_snoc (x ∷ []) c d = refl
get_last_or_snoc (x ∷ y ∷ s) c d = get_last_or_snoc (y ∷ s) c d

pub drop_last_snoc : (s : Bytes) (c : ℕ) → drop_last (s ++ c ∷ []) ≡ s
drop_last_snoc [] c = refl
drop_last_snoc (x ∷ []) c = refl
drop_last_snoc (x ∷ y ∷ s) c = ap (◌∷◌ x) (drop_last_snoc (y ∷ s) c)

pub strip_cr_lem : (line : Bytes) → strip_cr (line ++ b'\r' ∷ []) ≡ line
unfolding strip_cr
strip_cr_lem line = rw (get_last_or_snoc line b'\r' 0, drop_last_snoc line b'\r', strip_cr) refl

-- What may stand behind a word.
abbrev pub breaks : Bytes → Bool
breaks [] = true
breaks (c ∷ s) = is_space c

take-breaks : (s : Bytes) → breaks s ≡ true → take_while (λ c. not (is_space c)) s ≡ []
unfolding take_while
take-breaks [] b = refl
take-breaks (c ∷ s) b = rw b refl

drop-breaks : (s : Bytes) → breaks s ≡ true → drop_while (λ c. not (is_space c)) s ≡ s
unfolding drop_while
drop-breaks [] b = refl
drop-breaks (c ∷ s) b = rw b refl

take-word :
    (w rest : Bytes)
    → spaceless w ≡ true
    → breaks rest ≡ true
    → take_while (λ c. not (is_space c)) (w ++ rest) ≡ w
unfolding take_while
take-word [] rest h b = take-breaks rest b
take-word (x ∷ w) rest h b = elim (Bool-cases (is_space x)) [
  | inl q ↦ absurd (ground (arith, q, h))
  | inr q ↦ rw q (ap (◌∷◌ x) (take-word w rest (rw q at h) b))
]

drop-word :
    (w rest : Bytes)
    → spaceless w ≡ true
    → breaks rest ≡ true
    → drop_while (λ c. not (is_space c)) (w ++ rest) ≡ rest
unfolding drop_while
drop-word [] rest h b = drop-breaks rest b
drop-word (x ∷ w) rest h b = elim (Bool-cases (is_space x)) [
  | inl q ↦ absurd (ground (arith, q, h))
  | inr q ↦ rw q (drop-word w rest (rw q at h) b)
]

pub extract-word :
    (w rest : Bytes)
    → is_empty w ≡ false
    → spaceless w ≡ true
    → breaks rest ≡ true
    → extract (w ++ rest) ≡ some (w, rest)
unfolding extract drop_while
extract-word [] rest e h b = absurd (ground (arith, e))
extract-word (x ∷ w) rest e h b = elim (Bool-cases (is_space x)) [
  | inl q ↦ absurd (ground (arith, q, h))
  | inr q ↦
      rw (q, extract)
        (ap (λ t. some t)
          (ap (λ t. (t, drop_while (λ c. not (is_space c)) (x ∷ (w ++ rest))))
              (take-word (x ∷ w) rest h b)
            ∙ ap (λ t. (x ∷ w, t)) (drop-word (x ∷ w) rest h b)))
]

pub extract-space : (s : Bytes) → extract (b' ' ∷ s) ≡ extract s
unfolding extract drop_while is_space
extract-space s = refl

pub cut-free : (c : ℕ) (s rest : Bytes) → free c s ≡ true → cut c (s ++ c ∷ rest) ≡ some (s, rest)
unfolding cut
cut-free c [] rest h = ground arith
cut-free c (x ∷ s) rest h = elim (Bool-cases (x == c)) [
  | inl q ↦ absurd (ground (arith, q, h))
  | inr q ↦ rw (q, cut-free c s rest (rw q at h)) refl
]

pub cut-none : (c : ℕ) (s : Bytes) → free c s ≡ true → cut c s ≡ none
unfolding cut
cut-none c [] h = refl
cut-none c (x ∷ s) h = elim (Bool-cases (x == c)) [
  | inl q ↦ absurd (ground (arith, q, h))
  | inr q ↦ rw (q, cut-none c s (rw q at h)) refl
]

pub trim-space : (s : Bytes) → trim (b' ' ∷ s) ≡ trim s
unfolding trim drop_while
trim-space s = refl

drop_while_end-spaceless : (s : Bytes) → spaceless s ≡ true → drop_while_end is_sp s ≡ s
unfolding drop_while_end is_space
drop_while_end-spaceless [] h = refl
drop_while_end-spaceless (c ∷ []) h = ground (arith, h)
drop_while_end-spaceless (c ∷ d ∷ s) h =
    let rest : spaceless (d ∷ s) ≡ true = ground (arith, h) in
    rw (drop_while_end-spaceless (d ∷ s) rest) refl

pub trim-spaceless : (s : Bytes) → spaceless s ≡ true → trim s ≡ s
unfolding trim drop_while drop_while_end is_space
trim-spaceless [] h = refl
trim-spaceless (c ∷ s) h =
    let sp : is_sp c ≡ false = ground (arith, h) in rw sp (drop_while_end-spaceless (c ∷ s) h)

digits-spaceless : (s : Bytes) → all_digits s ≡ true → spaceless s ≡ true
unfolding is_space is_digit
digits-spaceless [] h = refl
digits-spaceless (c ∷ s) h = ground (arith, h, digits-spaceless s)

pub to_string-spaceless : (n : ℕ) → spaceless (to_string n) ≡ true
to_string-spaceless n = digits-spaceless (to_string n) (some-all (to_string n) (to_string-digits n))
