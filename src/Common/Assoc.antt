-- ===== src/Common/Assoc.antt =====
-- Python's `dict` with text keys, in insertion order.
use Prim.Native.String.{String}
use mathlib.Core.Path.{◌≡◌, refl}
use mathlib.Core.Bool.{Bool, false, ◌||◌}
use mathlib.Core.Option.{Option, none, some}
use mathlib.Core.List.{List, [], ◌∷◌}
use native.Mathlib.Omega.{arith}
use text.Mathlib.Text.{◌==◌}
use text.Mathlib.TextEquality.{eq_iff}
use qervan_ai.Common.Tests.{if◌then◌else◌}

-- `k in xs`, for texts.
abbrev pub contains_str : List String → String → Bool
contains_str [] k = false
contains_str (x ∷ xs) k = x == k || contains_str xs k

abbrev pub Dict {ℓ} : Type ℓ → Type ℓ
Dict V = List (String × V)

module _ {ℓ} {V : Type ℓ} where
  -- d.get(k)
  unfoldable pub lookup : Dict V → String → Option V
  lookup [] k = none
  lookup ((j, v) ∷ d) k = if j == k then some v else lookup d k

  -- d.get(k, default)
  unfoldable pub lookup_or : Dict V → String → V → V
  lookup_or [] k v = v
  lookup_or ((j, w) ∷ d) k v = if j == k then w else lookup_or d k v

  -- d[k] = v keeps the place of a key that is there.
  unfoldable pub insert : Dict V → String → V → Dict V
  insert [] k v = (k, v) ∷ []
  insert ((j, w) ∷ d) k v = if j == k then (k, v) ∷ d else (j, w) ∷ insert d k v

  pub lookup-insert :
      (d : Dict V) (k j : String) (v : V)
      → lookup (insert d k v) j ≡ (if k == j then some v else lookup d j)
  unfolding lookup insert
  lookup-insert [] k j v = refl
  lookup-insert ((i, w) ∷ d) k j v =
      ground (arith, eq_iff k j, eq_iff i k, eq_iff i j, lookup-insert d k j v)

  pub lookup_or-insert :
      (d : Dict V) (k j : String) (v w : V)
      → lookup_or (insert d k v) j w ≡ (if k == j then v else lookup_or d j w)
  unfolding lookup_or insert
  lookup_or-insert [] k j v w = refl
  lookup_or-insert ((i, u) ∷ d) k j v w =
      ground (arith, eq_iff k j, eq_iff i k, eq_iff i j, lookup_or-insert d k j v w)

  pub lookup_or-eq :
      (d : Dict V) (k : String) (v : V)
      → lookup_or d k v ≡ elim (lookup d k) [ none ↦ v | some w ↦ w ]
  unfolding lookup_or lookup
  lookup_or-eq [] k v = refl
  lookup_or-eq ((j, w) ∷ d) k v = ground (arith, lookup_or-eq d k v)
