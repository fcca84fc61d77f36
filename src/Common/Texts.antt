-- ===== src/Common/Texts.antt =====
-- Texts as lists of code points, and the same lists as bytes.
use Prim.Native.Char.{code}
use Prim.Native.Nat.{ℕ}
use Prim.Native.String.{String}
use mathlib.Core.Path.{◌≡◌, refl, sym}
use mathlib.Core.Logic.{◌↔◌, inl, inr}
use mathlib.Core.Bool.{Bool, true, false, ◌&&◌, ◌||◌}
use mathlib.Core.List.Memᴰ
use mathlib.Core.List.{Memᴰ, List, [], ◌∷◌}
use native.Mathlib.Omega.{arith}
use qervan_ai.Common.Tests.{◌==◌, ==_iff, ltb, Bool-cases}

abbrev pub Text : Type 0
Text = List ℕ

-- The code points of a literal.
abbrev pub codes : String → Text
codes String.[] = []
codes (String.◌∷◌ c s) = code c ∷ codes s

abbrev pub text_eq : Text → Text → Bool
text_eq [] [] = true
text_eq [] (y ∷ ys) = false
text_eq (x ∷ xs) [] = false
text_eq (x ∷ xs) (y ∷ ys) = x == y && text_eq xs ys

pub text_eq_iff : (a b : Text) → (text_eq a b ≡ true) ↔ (a ≡ b)
text_eq_iff [] [] = ground arith
text_eq_iff [] (y ∷ ys) = ground arith
text_eq_iff (x ∷ xs) [] = ground arith
text_eq_iff (x ∷ xs) (y ∷ ys) = ground (arith, ==_iff x y, text_eq_iff xs ys)

-- `t in ts`
abbrev pub contains_text : List Text → Text → Bool
contains_text [] t = false
contains_text (x ∷ xs) t = text_eq x t || contains_text xs t

pub contains_text_iff : (ts : List Text) (t : Text) → (contains_text ts t ≡ true) ↔ Memᴰ t ts
contains_text_iff [] t = ((λ e. cc), (λ m. absurd (Memᴰ.not-nil m)))
contains_text_iff (x ∷ xs) t = (
  (λ e. elim (Bool-cases (text_eq x t)) [
    | inl same ↦ Memᴰ.head (sym ((text_eq_iff x t).0 same))
    | inr other ↦ Memᴰ.tail ((contains_text_iff xs t).0 (ground (arith, other, e)))
  ]),
  (λ m. elim (Memᴰ.cases_cons m) [
    | inl same ↦ rw ((text_eq_iff x t).1 (sym same)) refl
    | inr later ↦ rw ((contains_text_iff xs t).1 later) (ground arith)
  ]),
)

abbrev pub is_ascii : Text → Bool
is_ascii [] = true
is_ascii (x ∷ xs) = ltb x 128 && is_ascii xs
