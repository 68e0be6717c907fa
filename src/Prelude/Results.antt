-- ===== src/Prelude/Results.antt =====
-- The value-or-error results of Go functions.
use mathlib.Core.Path.{◌≡◌, refl}
use mathlib.Core.Logic.{◌⊎◌, inl, inr}
use mathlib.Core.Bool.{Bool, true, false}

pub data Result {ℓ} (E A : Type ℓ) : Type ℓ where
  ok : A → Result E A
  err : E → Result E A

pub Result-cases {ℓ} :
    {E A : Type ℓ} (r : Result E A) → ((a : A) × (r ≡ ok a)) ⊎ ((e : E) × (r ≡ err e))
Result-cases (ok a) = inl (a, refl)
Result-cases (err e) = inr (e, refl)

module _ {ℓ} {E A B : Type ℓ} where
  infixl 5 ◌>>=◌
  abbrev pub ◌>>=◌ : Result E A → (A → Result E B) → Result E B
  ok a >>= f = f a
  err e >>= f = err e

  pub >>=-eq-ok :
      {out : B} (first : Result E A) (rest : A → Result E B)
      → (first >>= rest) ≡ ok out
      → (mid : A) × (first ≡ ok mid) × (rest mid ≡ ok out)
  >>=-eq-ok (ok mid) rest done = (mid, refl, done)
  >>=-eq-ok (err failure) rest done = cc

module _ {ℓ} {E : Type ℓ} where
  infixl 5 ◌>>◌
  abbrev pub ◌>>◌ : {B : Type ℓ} → Result E (Unit {ℓ}) → Result E B → Result E B
  m >> k = m >>= λ _. k

  -- `if test { return e }` and go on otherwise
  abbrev pub fail_if : Bool → E → Result E (Unit {ℓ})
  fail_if true e = err e
  fail_if false e = ok tt
