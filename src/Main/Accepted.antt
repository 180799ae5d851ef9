-- ===== src/Main/Accepted.antt =====
-- What every command line that src/core/main.cpp takes leaves in the configuration.
use Prim.{Unit, tt}
use web_server_http.Common.{
  ℕ, ◌+◌, ◌≤◌, Bool, true, false, List, [], ◌∷◌, ◌≡◌, refl, subst, ◌&&◌, leb, ◌==◌, if◌then◌else◌,
  Bytes, returned, threw, Try, arith,
}
use web_server_http.Common.Numbers.{stoi}
use web_server_http.Main.{
  Config, Outcome, configured, asked_help, refused, uncaught, ArgumentKind, help, port, docroot,
  threads, keep_alive, no_keep_alive, timeout, positional, argument_kind, is_positive, to_size,
  with_number, set_port, set_threads, set_timeout, set_positional, next, last_argument,
  take_argument, parse_arguments, default_config,
}

-- The port is one that TCP has, and the timeout is positive.
abbrev pub Checked : Config → Type 0
Checked c =
    (is_positive c.port && leb c.port.1 65535 ≡ true) × (is_positive c.keep_alive_timeout ≡ true)

-- The configuration of a result, if there is one, is checked.
Safe : Outcome → Type 0
Safe (configured c) = Checked c
Safe _ = Unit

Safe-if :
    (b : Bool) (p q : Outcome)
    → (b ≡ true → Safe p)
    → (b ≡ false → Safe q)
    → Safe (if b then p else q)
Safe-if true p q h k = h refl
Safe-if false p q h k = k refl

Safe-with_number :
    (t : Try (Bool × ℕ)) (f : Bool × ℕ → Outcome)
    → ((x : Bool × ℕ) → Safe (f x))
    → Safe (with_number t f)
unfolding Safe
Safe-with_number (returned x) f h = h x
Safe-with_number (threw e) f h = tt

set_port-Safe : (value : Bytes) (c : Config) → Checked c → Safe (set_port value c)
unfolding set_port Safe
set_port-Safe value c (p, t) =
    Safe-with_number (stoi 10 value) _
      (λ x. Safe-if (is_positive x && leb x.1 65535) _ _ (λ e. (e, t)) (λ e. tt))

set_threads-Safe : (value : Bytes) (c : Config) → Checked c → Safe (set_threads value c)
unfolding set_threads Safe
set_threads-Safe value c k =
    Safe-with_number (stoi 10 value) _ (λ x. Safe-if (to_size x == 0) _ _ (λ e. tt) (λ e. k))

set_timeout-Safe : (value : Bytes) (c : Config) → Checked c → Safe (set_timeout value c)
unfolding set_timeout Safe
set_timeout-Safe value c (p, t) =
    Safe-with_number (stoi 10 value) _ (λ x. Safe-if (is_positive x) _ _ (λ e. (p, e)) (λ e. tt))

-- The positional port stands first.
set_positional-Safe :
    (i : ℕ) (arg : Bytes) (c : Config)
    → (i == 1) ≡ false
    → Checked c
    → Safe (set_positional i arg c)
unfolding set_positional Safe
set_positional-Safe i arg c later k =
    Safe-if (i == 1) _ _ (λ e. absurd (ground (arith, e, later)))
      (λ e.
        Safe-if (i == 2) _ _ (λ e. k)
          (λ e. Safe-if (i == 3) _ _ (λ e. Safe-with_number (stoi 10 arg) _ (λ x. k)) (λ e. tt)))

Safe-next :
    (p : Outcome) (f : Config → Outcome)
    → Safe p
    → ((c : Config) → Checked c → Safe (f c))
    → Safe (next p f)
unfolding Safe
Safe-next (configured c) f k h = h c k
Safe-next asked_help f k h = tt
Safe-next refused f k h = tt
Safe-next (uncaught e) f k h = tt

-- A positional argument does not stand first.
Later : ArgumentKind → ℕ → Type 0
Later positional i = (i == 1) ≡ false
Later _ i = Unit

last_argument-Safe :
    (k : ArgumentKind) (i : ℕ) (arg : Bytes) (c : Config)
    → Later k i
    → Checked c
    → Safe (last_argument k i arg c)
unfolding last_argument Safe Later
last_argument-Safe keep_alive i arg c l h = h
last_argument-Safe no_keep_alive i arg c l h = h
last_argument-Safe positional i arg c l h = set_positional-Safe i arg c l h
last_argument-Safe _ i arg c l h = tt

take_argument-Safe :
    (k : ArgumentKind) (i : ℕ) (arg value : Bytes) (c : Config) (one both : Config → Outcome)
    → Later k i
    → Checked c
    → ((c' : Config) → Checked c' → Safe (one c'))
    → ((c' : Config) → Checked c' → Safe (both c'))
    → Safe (take_argument k i arg value c one both)
unfolding take_argument Safe Later
take_argument-Safe help i arg value c one both l h f g = tt
take_argument-Safe keep_alive i arg value c one both l h f g = f _ h
take_argument-Safe no_keep_alive i arg value c one both l h f g = f _ h
take_argument-Safe positional i arg value c one both l h f g =
    Safe-next (set_positional i arg c) one (set_positional-Safe i arg c l h) f
take_argument-Safe port i arg value c one both l h f g =
    Safe-next (set_port value c) both (set_port-Safe value c h) g
take_argument-Safe docroot i arg value c one both l h f g = g _ h
take_argument-Safe threads i arg value c one both l h f g =
    Safe-next (set_threads value c) both (set_threads-Safe value c h) g
take_argument-Safe timeout i arg value c one both l h f g =
    Safe-next (set_timeout value c) both (set_timeout-Safe value c h) g

later : (k : ArgumentKind) (i : ℕ) → 2 ≤ i → Later k i
unfolding Later
later positional i h = ground (arith, h)
later _ i h = tt

parse_rest-Safe :
    (i : ℕ) (c : Config) (args : List Bytes) → 2 ≤ i → Checked c → Safe (parse_arguments i c args)
unfolding parse_arguments
parse_rest-Safe i c [] n h = unfold Safe in h
parse_rest-Safe i c (arg ∷ []) n h =
    last_argument-Safe (argument_kind arg) i arg c (later (argument_kind arg) i n) h
parse_rest-Safe i c (arg ∷ value ∷ rest) n h =
    take_argument-Safe (argument_kind arg) i arg value c _ _ (later (argument_kind arg) i n) h
      (λ c' k. parse_rest-Safe (i + 1) c' (value ∷ rest) (omega (arith, n)) k)
      (λ c' k. parse_rest-Safe (i + 2) c' rest (omega (arith, n)) k)

unfoldable pub is_option : ArgumentKind → Bool
is_option positional = false
is_option _ = true

option-Later : (k : ArgumentKind) (i : ℕ) → is_option k ≡ true → Later k i
unfolding is_option Later
option-Later positional i h = absurd (ground (arith, h))
option-Later _ i h = tt

parse_arguments-Safe :
    (arg : Bytes) (rest : List Bytes)
    → is_option (argument_kind arg) ≡ true
    → Safe (parse_arguments 1 default_config (arg ∷ rest))
unfolding parse_arguments
parse_arguments-Safe arg [] h =
    last_argument-Safe (argument_kind arg) 1 arg default_config
      (option-Later (argument_kind arg) 1 h) (refl, refl)
parse_arguments-Safe arg (value ∷ rest) h =
    take_argument-Safe (argument_kind arg) 1 arg value default_config _ _
      (option-Later (argument_kind arg) 1 h) (refl, refl)
      (λ c k. parse_rest-Safe 2 c (value ∷ rest) (omega arith) k)
      (λ c k. parse_rest-Safe 3 c rest (omega arith) k)

-- From a command line that begins with an option and that `main` takes, whatever stands behind, comes a
-- port from 1 to 65535 and a positive timeout.
pub parse_arguments-Checked :
    (arg : Bytes) (rest : List Bytes) (c : Config)
    → is_option (argument_kind arg) ≡ true
    → parse_arguments 1 default_config (arg ∷ rest) ≡ configured c
    → Checked c
parse_arguments-Checked arg rest c h e =
    unfold Safe in subst Safe e (parse_arguments-Safe arg rest h)
