-- ===== src/Server/Fetching.antt =====
-- `handle_user_api` of src/core/server.cpp behind `create_user`.
use web_server_http.Common.{
  ltb, ℕ, suc, ◌+◌, ◌^◌, ◌%◌, ◌<◌, Bool, true, false, List, [], ◌∷◌, ◌++◌, ◌≡◌, refl, sym, ap, ◌∙◌,
  length, some, Bytes, codes, equal, equal_iff, Bool-cases, inl, inr, returned, if◌then◌else◌,
  arith,
}
use web_server_http.Common.Dict.{lookup, bytes_key}
use web_server_http.Common.Digits.{stoi-to_string}
use web_server_http.Common.Numbers.{to_string, stoi}
use web_server_http.HttpRequest.{HttpRequest}
use web_server_http.Json.Responses.{build_user_response}
use web_server_http.Server.Api.{
  Environment, create_user, int_text, find_user, user_body, handle_user_api, json_ok,
}
use web_server_http.Server.State.{Server, user}
use web_server_http.Server.Users.{Numbered, UserIds}

-- Different ids have different texts.
to_string-ne : (n k : ℕ) → n < k → k < 2 ^ 31 → equal (to_string n) (to_string k) ≡ false
to_string-ne n k h b = elim (Bool-cases (equal (to_string n) (to_string k))) [
  | inr q ↦ q
  | inl q ↦
      let same = (equal_iff (to_string n) (to_string k)).0 q in
      let read =
        sym (stoi-to_string n (omega (arith, h, b))) ∙ (ap (stoi 10) same ∙ stoi-to_string k b) in
      absurd (ground (arith, read, h))
]

if_true : {A : Type 0} {b : Bool} (x y : A) → b ≡ true → (if b then x else y) ≡ x
if_true x y e = rw (e) refl

int_text_small : (n : ℕ) → n < 2 ^ 31 → int_text (n % 2 ^ 32) ≡ to_string n
unfolding int_text
int_text_small n h =
    let same : n % 2 ^ 32 ≡ n = omega (arith, h) in
    rw (same) (if_true {b = ltb n (2 ^ 31)} _ _ (ground (arith, h)))

if_false : {A : Type 0} {b : Bool} (x y : A) → b ≡ false → (if b then x else y) ≡ y
if_false x y e = rw (e) refl

equal_self : (s : Bytes) → equal s s ≡ true
equal_self s = (equal_iff s s).1 refl

module _ (env : Environment) where
  open env use {double}

  -- A user in front.
  find_user-cons :
      (id name email wanted : Bytes) (us : List (List (Bytes × Bytes)))
      → find_user env wanted (user id name email ∷ us) ≡ (
          if equal id wanted then returned (some (user id name email)) else find_user env wanted us)
  unfolding find_user lookup equal
  find_user-cons id name email wanted us = refl

  find_user-append :
      (n k : ℕ) (us : List (List (Bytes × Bytes))) (name email : Bytes)
      → UserIds n us
      → n + length us ≡ k
      → k < 2 ^ 31
      → find_user env (to_string k) (us ++ user (to_string k) name email ∷ [])
        ≡ returned (some (user (to_string k) name email))
  unfolding UserIds
  find_user-append n k [] name email u e b =
      find_user-cons (to_string k) name email (to_string k) [] ∙ rw (equal_self (to_string k)) refl
  find_user-append n k (v ∷ us) name email ((name', email', a, c, same), more) e b =
      let last = user (to_string k) name email in
      let front : n < k = omega (arith, e) in
      let numbered : v ≡ user (to_string n) name' email' =
        same ∙ ap (λ t. user t name' email') (int_text_small n (omega (arith, front, b))) in
      ap (λ w. find_user env (to_string k) (w ∷ (us ++ last ∷ []))) numbered
      ∙ (find_user-cons (to_string n) name' email' (to_string k) (us ++ last ∷ [])
          ∙ (if_false (returned (some (user (to_string n) name' email'))) _
                (to_string-ne n k front b)
              ∙ find_user-append (suc n) k us name email more (omega (arith, e)) b))

  user_body-user :
      (k : ℕ) (name email : Bytes)
      → k < 2 ^ 31
      → user_body env (user (to_string k) name email)
        ≡ returned (build_user_response double (false, k) name email)
  unfolding user_body lookup equal
  user_body-user k name email b = rw (stoi-to_string k b) refl

  -- While the users are numbered and their number and the new id fit into an `int`, a user that `create_user` adds can be
  -- fetched: the answer to GET with the text of the new id is the response with this id, the name and
  -- the email.
  pub handle_user_api-create_user :
      (s : Server) (name email : Bytes) (request : HttpRequest)
      → Numbered s
      → length s.users_data + 1 < 2 ^ 31
      → equal request.method (codes "GET") ≡ true
      → let s' = (create_user name email s).0 in
        handle_user_api env s' request (to_string s.next_user_id)
        ≡ returned (json_ok env s' (build_user_response double (false, s.next_user_id) name email))
  unfolding handle_user_api create_user
  handle_user_api-create_user s name email request (u, e) b g =
      let k = s.next_user_id in
      let small : k < 2 ^ 31 = omega (arith, e, b) in
      let whole : k % 2 ^ 32 ≡ k = omega (arith, small) in
      let text : int_text k ≡ to_string k = ap int_text (sym whole) ∙ int_text_small k small in
      let found =
        ap (λ t. find_user env (to_string k) (s.users_data ++ user t name email ∷ [])) text
        ∙ find_user-append 1 k s.users_data name email u (omega (arith, e, b)) small in
      rw (g, found, user_body-user k name email small) refl
