-- ===== src/Common/Dict.antt =====
-- `std::map` as a list in key order. Keys are anything with an equality and an order.
use mathlib.Core.Path.{◌≡◌, refl}
use mathlib.Core.Logic.{◌↔◌}
use mathlib.Core.Bool.{Bool, true, false}
use mathlib.Core.List.{List, [], ◌∷◌}
use mathlib.Core.Option.{Option, none, some}
use Prim.Native.Nat.{ℕ, ◌+◌, ◌≤◌}
use native.Mathlib.Omega.{arith}
use web_server_http.Common.Tests.{ltb, ◌==◌, ==_iff, if◌then◌else◌}
use web_server_http.Common.Lists.{length}
use web_server_http.Common.Text.{Bytes, equal, equal_iff}

-- What the code relies on of a key type: `==` decides equality.
pub record Key (K : Type 0) : Type 0 where
  pub same : K → K → Bool
  pub less : K → K → Bool
  pub same_iff : (a b : K) → (same a b ≡ true) ↔ (a ≡ b)
  pub less_irrefl : (a : K) → less a a ≡ false
  pub less_asym : (a b : K) → less a b ≡ true → less b a ≡ false

-- `operator<` of `std::string`.
unfoldable pub bytes_less : Bytes → Bytes → Bool
bytes_less [] [] = false
bytes_less [] (y ∷ b) = true
bytes_less (x ∷ a) [] = false
bytes_less (x ∷ a) (y ∷ b) = if ltb x y then true else if ltb y x then false else bytes_less a b

pub bytes_less_irrefl : (a : Bytes) → bytes_less a a ≡ false
unfolding bytes_less
bytes_less_irrefl [] = refl
bytes_less_irrefl (x ∷ a) = ground (arith, bytes_less_irrefl a)

pub bytes_less_asym : (a b : Bytes) → bytes_less a b ≡ true → bytes_less b a ≡ false
unfolding bytes_less
bytes_less_asym [] [] h = refl
bytes_less_asym [] (y ∷ b) h = refl
bytes_less_asym (x ∷ a) [] h = ground arith
bytes_less_asym (x ∷ a) (y ∷ b) h = ground (arith, bytes_less_asym a b)

pub ltb_irrefl : (a : ℕ) → ltb a a ≡ false
ltb_irrefl a = ground arith

pub ltb_asym : (a b : ℕ) → ltb a b ≡ true → ltb b a ≡ false
ltb_asym a b h = ground arith

abbrev pub nat_same : ℕ → ℕ → Bool
nat_same a b = a == b

instance abbrev pub nat_key : Key ℕ
nat_key = record {
  same = nat_same;
  less = ltb;
  same_iff = ==_iff;
  less_irrefl = ltb_irrefl;
  less_asym = ltb_asym;
}

instance abbrev pub bytes_key : Key Bytes
bytes_key = record {
  same = equal;
  less = bytes_less;
  same_iff = equal_iff;
  less_irrefl = bytes_less_irrefl;
  less_asym = bytes_less_asym;
}

pub same_self : {K : Type 0} ⦃k : Key K⦄ (x : K) → k.same x x ≡ true
same_self ⦃k⦄ x = (k.same_iff x x).1 refl

module _ {K V : Type 0} ⦃k : Key K⦄ where
  -- `find`.
  unfoldable pub lookup : K → List (K × V) → Option V
  lookup x [] = none
  lookup x ((y, v) ∷ m) = if k.same y x then some v else lookup x m

  -- `m[x] = v`.
  unfoldable pub insert : K → V → List (K × V) → List (K × V)
  insert x v [] = (x, v) ∷ []
  insert x v ((y, w) ∷ m) =
      if k.same y x
      then (x, v) ∷ m
      else if k.less x y
      then (x, v) ∷ (y, w) ∷ m
      else (y, w) ∷ insert x v m

  -- `erase`.
  unfoldable pub erase : K → List (K × V) → List (K × V)
  erase x [] = []
  erase x ((y, w) ∷ m) = let rest = erase x m in if k.same y x then rest else (y, w) ∷ rest

  pub lookup-insert :
      (x y : K) (v : V) (m : List (K × V))
      → lookup y (insert x v m) ≡ (if k.same x y then some v else lookup y m)
  unfolding lookup insert
  lookup-insert x y v [] = refl
  lookup-insert x y v ((z, w) ∷ m) =
      ground (arith, k.same_iff z x, k.same_iff x y, k.same_iff z y, lookup-insert x y v m)

  pub lookup-erase :
      (x y : K) (m : List (K × V))
      → lookup y (erase x m) ≡ (if k.same x y then none else lookup y m)
  unfolding lookup erase
  lookup-erase x y [] = ground arith
  lookup-erase x y ((z, w) ∷ m) =
      ground (arith, k.same_iff z x, k.same_iff x y, k.same_iff z y, lookup-erase x y m)

  pub lookup-insert_self : (x : K) (v : V) (m : List (K × V)) → lookup x (insert x v m) ≡ some v
  lookup-insert_self x v m = ground (arith, lookup-insert x x v m, same_self x)

  pub lookup-erase_self : (x : K) (m : List (K × V)) → lookup x (erase x m) ≡ none
  lookup-erase_self x m = ground (arith, lookup-erase x x m, same_self x)

  pub length-insert : (x : K) (v : V) (m : List (K × V)) → length (insert x v m) ≤ length m + 1
  unfolding insert
  length-insert x v [] = omega arith
  length-insert x v ((y, w) ∷ m) = ground (arith, length-insert x v m)

  pub length-erase : (x : K) (m : List (K × V)) → length (erase x m) ≤ length m
  unfolding erase
  length-erase x [] = omega arith
  length-erase x ((y, w) ∷ m) = ground (arith, length-erase x m)
