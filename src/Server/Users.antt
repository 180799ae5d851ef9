-- ===== src/Server/Users.antt =====
-- The users of `WebServer` in src/core/server.cpp: every request, whatever it is, keeps them numbered.
use web_server_http.Common.{
  ℕ, suc, ◌+◌, ◌^◌, ◌%◌, false, List, [], ◌∷◌, ◌++◌, ◌≡◌, ap, subst, length, length-append, Bytes,
  is_empty, arith,
}
use web_server_http.Common.Dict.{bytes_key}
use web_server_http.HttpRequest.{HttpRequest}
use Prim.{tt}
use web_server_http.Server.Api.{Environment, create_user, int_text}
use web_server_http.Server.Routing.{handle_request}
use web_server_http.Server.Handling.{handle_request_keeps}
use web_server_http.Server.State.{Server, user}

-- The users have the ids `n`, `n + 1` and so on, as 32-bit ints, each with a name and an email.
unfoldable pub UserIds : ℕ → List (List (Bytes × Bytes)) → Type 0
UserIds n [] = Unit
UserIds n (u ∷ us) =
    ((name : Bytes) × (email : Bytes) × (is_empty name ≡ false)
      × (is_empty email ≡ false)
      × (u ≡ user (int_text (n % 2 ^ 32)) name email))
    × UserIds (suc n) us

-- The users are numbered from 1, as 32-bit ints, and the next id is the next number.
abbrev pub Numbered : Server → Type 0
Numbered s = UserIds 1 s.users_data × (s.next_user_id ≡ suc (length s.users_data) % 2 ^ 32)

UserIds-append :
    (n : ℕ) (us : List (List (Bytes × Bytes))) (name email : Bytes)
    → is_empty name ≡ false
    → is_empty email ≡ false
    → UserIds n us
    → UserIds n (us ++ user (int_text ((n + length us) % 2 ^ 32)) name email ∷ [])
unfolding UserIds
UserIds-append n [] name email h k u =
    let same : n + 0 ≡ n = omega arith in
    ((name, email, h, k, ap (λ i. user (int_text (i % 2 ^ 32)) name email) same), tt)
UserIds-append n (x ∷ us) name email h k (v, u) =
    let more : suc n + length us ≡ n + suc (length us) = omega arith in
    (
      v,
      subst (λ i. UserIds (suc n) (us ++ user (int_text (i % 2 ^ 32)) name email ∷ [])) more
          (UserIds-append (suc n) us name email h k u),
    )

pub create_user-Numbered :
    (s : Server) (name email : Bytes)
    → is_empty name ≡ false
    → is_empty email ≡ false
    → Numbered s
    → Numbered (create_user name email s).0
unfolding create_user
create_user-Numbered s name email h k (u, e) =
    let number : (1 + length s.users_data) % 2 ^ 32 ≡ s.next_user_id = omega (arith, e) in
    (
      subst (λ i. UserIds 1 (s.users_data ++ user (int_text i) name email ∷ [])) number
          (UserIds-append 1 s.users_data name email h k u),
      omega (arith, e, length-append s.users_data (user (int_text s.next_user_id) name email ∷ [])),
    )

pub handle_request-Numbered :
    (env : Environment) (s : Server) (request : HttpRequest)
    → Numbered s
    → Numbered (handle_request env s request).0
handle_request-Numbered env s request n =
    handle_request_keeps Numbered create_user-Numbered env s request n
