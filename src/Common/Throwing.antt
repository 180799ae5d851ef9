-- ===== src/Common/Throwing.antt =====
-- Results of code that may throw, and the exceptions that the sources' library calls throw.
use mathlib.Core.Path.{◌≡◌, refl}
use mathlib.Core.Logic.{◌⊎◌, inl, inr}

pub data Exception : Type 0 where
  invalid_argument out_of_range length_error : Exception

pub data Try {ℓ} (A : Type ℓ) : Type ℓ where
  returned : A → Try A
  threw : Exception → Try A

infixl 5 ◌>>=◌
abbrev pub ◌>>=◌ {ℓ κ} : {A : Type ℓ} {B : Type κ} → Try A → (A → Try B) → Try B
returned a >>= f = f a
threw e >>= f = threw e

-- Inversion of a bind that returned.
pub >>=-eq-returned {ℓ κ} :
    {A : Type ℓ} {B : Type κ} (m : Try A) (f : A → Try B) {b : B}
    → (m >>= f) ≡ returned b
    → (a : A) × (m ≡ returned a) × (f a ≡ returned b)
>>=-eq-returned (returned a) f h = (a, refl, h)
>>=-eq-returned (threw e) f h = cc

pub Try-cases {ℓ} :
    {A : Type ℓ} (m : Try A) → ((a : A) × (m ≡ returned a)) ⊎ ((e : Exception) × (m ≡ threw e))
Try-cases (returned a) = inl (a, refl)
Try-cases (threw e) = inr (e, refl)
