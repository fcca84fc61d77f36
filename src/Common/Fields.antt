-- ===== src/Common/Fields.antt =====
-- The constraints that pydantic checks of a model's fields, and what it takes for a list of errors to be empty.
use Prim.Native.Nat.{ℕ, ◌≤◌}
use Prim.Native.String.{String}
use mathlib.Core.Path.{◌≡◌, refl, sym, ◌∙◌}
use mathlib.Core.Logic.{◌↔◌, inl, inr}
use mathlib.Core.Bool.{Bool, true, false, not, ◌&&◌}
use mathlib.Core.Option.{Option, none, some}
use mathlib.Core.List.{List, [], ◌∷◌, ◌++◌}
use native.Mathlib.Omega.{arith}
use qervan_ai.Common.Tests.{leb}
use qervan_ai.Common.Lists.{length, List-cases, cons-ne-nil}
use qervan_ai.Common.Results.{Result, ok, err, ok-ne-err}
use qervan_ai.Common.Int.{ℤ, pos, ltb_ℤ, ◌≤ℤ◌}

-- The name of a field whose value is refused.
abbrev pub refuse_unless : Bool → String → List String
refuse_unless true name = []
refuse_unless false name = name ∷ []

-- BaseModel.__init__ with ValidationError.
unfoldable pub build : {A : Type 0} → (A → List String) → A → Result (List String) A
build errors x = elim (errors x) [ [] ↦ ok x | e ∷ es ↦ err (e ∷ es) ]

-- conint(ge=a, le=b) and conint(ge=a)
abbrev pub in_bounds : ℕ → ℕ → ℤ → Bool
in_bounds a b v = not (ltb_ℤ v (pos a)) && not (ltb_ℤ (pos b) v)

abbrev pub at_least : ℕ → ℤ → Bool
at_least a v = not (ltb_ℤ v (pos a))

-- min_length and max_length, min_items and max_items
abbrev pub sized : {A : Type 0} → ℕ → ℕ → List A → Bool
sized a b xs = leb a (length xs) && leb (length xs) b

abbrev pub sized_if_given : {A : Type 0} → ℕ → ℕ → Option (List A) → Bool
sized_if_given a b none = true
sized_if_given a b (some xs) = sized a b xs

pub build-ok :
    {A : Type 0} (errors : A → List String) (x : A) → (build errors x ≡ ok x) ↔ (errors x ≡ [])
unfolding build
build-ok errors x = elim (List-cases (errors x)) [
  | inl nil ↦ ((λ h. nil), (λ h. ground (arith, nil)))
  | inr (e, es, cons) ↦
      ((λ h. absurd (ok-ne-err x (e ∷ es) (sym h ∙ rw (cons, build) refl))), (λ h. cc))
]

pub refuse_unless-nil :
    (b : Bool) (name : String) (rest : List String)
    → (refuse_unless b name ++ rest ≡ []) ↔ ((b ≡ true) × (rest ≡ []))
refuse_unless-nil true name rest = ((λ h. (refl, h)), (λ h. h.1))
refuse_unless-nil false name rest = ((λ h. absurd (cons-ne-nil h)), (λ h. cc))

pub refuse_unless-last : (b : Bool) (name : String) → (refuse_unless b name ≡ []) ↔ (b ≡ true)
refuse_unless-last true name = ((λ h. refl), (λ h. refl))
refuse_unless-last false name = ((λ h. absurd (cons-ne-nil h)), (λ h. cc))

pub append-nil_iff : (xs ys : List String) → (xs ++ ys ≡ []) ↔ ((xs ≡ []) × (ys ≡ []))
append-nil_iff [] ys = ((λ h. (refl, h)), (λ h. h.1))
append-nil_iff (x ∷ xs) ys = ((λ h. absurd (cons-ne-nil h)), (λ h. cc))

pub in_bounds_iff : (a b : ℕ) (v : ℤ) → (in_bounds a b v ≡ true) ↔ ((pos a ≤ℤ v) × (v ≤ℤ pos b))
in_bounds_iff a b v = (
  (λ h. (ground (arith, h), ground (arith, h))),
  (λ h. let (low, high) = h in ground (arith, low, high)),
)

pub sized_iff :
    {A : Type 0} (a b : ℕ) (xs : List A)
    → (sized a b xs ≡ true) ↔ ((a ≤ length xs) × (length xs ≤ b))
sized_iff a b xs = (
  (λ h. (ground (arith, h), ground (arith, h))),
  (λ h. let (low, high) = h in ground (arith, low, high)),
)
