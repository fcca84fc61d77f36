-- ===== src/Common/Lists.antt =====
-- Lists measured and indexed by native numbers, and sets of numbers as lists.
use Prim.Native.Nat.{ℕ, zero, suc, ◌+◌}
use mathlib.Core.Path.{sym, subst, ◌≡◌, refl}
use mathlib.Core.Logic.{◌↔◌, ◌⊎◌, inl, inr}
use mathlib.Core.Bool.{Bool, true, false, ◌&&◌, ◌||◌}
use mathlib.Core.Option.{Option, none, some}
use mathlib.Core.List.Memᴰ
use mathlib.Core.List.{Memᴰ, List, [], ◌∷◌, ◌++◌, map}
use native.Mathlib.Omega.{arith}
use qervan_ai.Common.Tests.{◌==◌, eq_of_some}

module _ {ℓ} {A : Type ℓ} where
  abbrev pub length : List A → ℕ
  length [] = 0
  length (x ∷ xs) = suc (length xs)

  abbrev pub get_elem? : List A → ℕ → Option A
  get_elem? [] i = none
  get_elem? (x ∷ xs) zero = some x
  get_elem? (x ∷ xs) (suc i) = get_elem? xs i

  abbrev pub get_or : List A → ℕ → A → A
  get_or [] i d = d
  get_or (x ∷ xs) zero d = x
  get_or (x ∷ xs) (suc i) d = get_or xs i d

  -- A write out of bounds changes nothing.
  abbrev pub set : List A → ℕ → A → List A
  set [] i v = []
  set (x ∷ xs) zero v = v ∷ xs
  set (x ∷ xs) (suc i) v = x ∷ set xs i v

  pub length-append : (xs ys : List A) → length (xs ++ ys) ≡ length xs + length ys
  length-append [] ys = omega arith
  length-append (x ∷ xs) ys = omega (arith, length-append xs ys)

  pub List-cases : (xs : List A) → (xs ≡ []) ⊎ ((x : A) × (rest : List A) × (xs ≡ x ∷ rest))
  List-cases [] = inl refl
  List-cases (x ∷ xs) = inr (x, xs, refl)

  pub cons-ne-nil : {x : A} {xs : List A} → ¬ (x ∷ xs ≡ [])
  cons-ne-nil h = cc

  -- A list's own predicate, by recursion: it computes to a tuple.
  abbrev pub All {κ} : (A → Type κ) → List A → Type κ
  All P [] = Unit
  All P (x ∷ xs) = P x × All P xs

  -- all(f(x) for x in xs)
  unfoldable pub every : (A → Bool) → List A → Bool
  every f [] = true
  every f (x ∷ xs) = f x && every f xs

  pub every-All {κ} :
      (f : A → Bool) (P : A → Type κ)
      → ((x : A) → (f x ≡ true) ↔ P x)
      → (xs : List A) → (every f xs ≡ true) ↔ All P xs
  unfolding every
  every-All f P decides [] = ((λ e. tt), (λ h. refl))
  every-All f P decides (x ∷ xs) = (
    (λ e. ((decides x).0 (ground (arith, e)), (every-All f P decides xs).0 (ground (arith, e)))),
    (λ h.
        let first = (decides x).1 h.0 in
        let rest = (every-All f P decides xs).1 h.1 in ground (arith, first, rest)),
  )

  pub All-both {κ ν} :
      (P : A → Type κ) (Q : A → Type ν) (xs : List A)
      → (All P xs × All Q xs) ↔ All (λ x. P x × Q x) xs
  All-both P Q [] = ((λ h. tt), (λ h. (tt, tt)))
  All-both P Q (x ∷ xs) = (
    (λ ((p, ps), (q, qs)). ((p, q), (All-both P Q xs).0 (ps, qs))),
    (λ ((p, q), rest). let (ps, qs) = (All-both P Q xs).1 rest in ((p, ps), (q, qs))),
  )

  pub All-snoc {κ} : (P : A → Type κ) (xs : List A) (y : A) → All P xs → P y → All P (xs ++ y ∷ [])
  All-snoc P [] y h k = (k, tt)
  All-snoc P (x ∷ xs) y (h, hs) k = (h, All-snoc P xs y hs k)

  pub All-get_elem? {κ} :
      (P : A → Type κ) (xs : List A) (i : ℕ) {x : A} → All P xs → get_elem? xs i ≡ some x → P x
  All-get_elem? P [] i h e = cc
  All-get_elem? P (y ∷ ys) zero h e = subst P (eq_of_some e) h.0
  All-get_elem? P (y ∷ ys) (suc i) h e = All-get_elem? P ys i h.1 e

  pub All-of {κ} : (P : A → Type κ) (xs : List A) → ((x : A) → Memᴰ x xs → P x) → All P xs
  All-of P [] f = tt
  All-of P (x ∷ xs) f = (f x (Memᴰ.head refl), All-of P xs (λ y m. f y (Memᴰ.tail m)))

  pub All-at {κ} : (P : A → Type κ) (xs : List A) {x : A} → All P xs → Memᴰ x xs → P x
  All-at P [] h m = absurd (Memᴰ.not-nil m)
  All-at P (y ∷ ys) h m = elim (Memᴰ.cases_cons m) [
    | inl e ↦ subst P (sym e) h.0
    | inr n ↦ All-at P ys h.1 n
  ]

-- `v in xs`, for numbers.
abbrev pub contains : List ℕ → ℕ → Bool
contains [] v = false
contains (x ∷ xs) v = x == v || contains xs v

pub contains-append :
    (xs ys : List ℕ) (v : ℕ) → contains (xs ++ ys) v ≡ (contains xs v || contains ys v)
contains-append [] ys v = refl
contains-append (x ∷ xs) ys v = ground (arith, contains-append xs ys v)

pub length-map {ℓ κ} :
    {A : Type ℓ} {B : Type κ} (f : A → B) (xs : List A) → length (map f xs) ≡ length xs
length-map f [] = refl
length-map f (x ∷ xs) = omega (arith, length-map f xs)
