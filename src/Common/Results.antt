-- ===== src/Common/Results.antt =====
-- The outcome of code that may raise an exception of a type `E`.
use mathlib.Core.Path.{◌≡◌, refl}
use mathlib.Core.Logic.{◌⊎◌, inl, inr}

pub data Result {ℓ} (E : Type 0) (A : Type ℓ) : Type ℓ where
  ok : A → Result E A
  err : E → Result E A

module _ {ℓ κ} {X : Type 0} {A : Type ℓ} {B : Type κ} where
  infixl 5 ◌>>=◌
  -- The exception of the first step ends the block.
  abbrev pub ◌>>=◌ : Result X A → (A → Result X B) → Result X B
  ◌>>=◌ (err x) next = err x
  ◌>>=◌ (ok v) next = next v

  -- A block that returns went through a first step that returned.
  pub >>=-eq-ok :
      (first : Result X A) (next : A → Result X B) {result : B}
      → ◌>>=◌ first next ≡ ok result
      → (v : A) × (first ≡ ok v) × (next v ≡ ok result)
  >>=-eq-ok (err x) next e = cc
  >>=-eq-ok (ok v) next e = (v, refl, e)

pub ok-injective {ℓ} :
    {E : Type 0} {A : Type ℓ} {a b : A} → ◌≡◌ {A = Result E A} (ok a) (ok b) → a ≡ b
ok-injective h = cc

pub ok-ne-err {ℓ} :
    {E : Type 0} {A : Type ℓ} (a : A) (e : E) → ¬ (◌≡◌ {A = Result E A} (ok a) (err e))
ok-ne-err a e h = cc

pub Result-cases {ℓ} :
    {E : Type 0} {A : Type ℓ} (m : Result E A) → ((a : A) × (m ≡ ok a)) ⊎ ((e : E) × (m ≡ err e))
Result-cases (ok a) = inl (a, refl)
Result-cases (err e) = inr (e, refl)
