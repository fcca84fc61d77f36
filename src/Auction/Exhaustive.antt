-- ===== src/Auction/Exhaustive.antt =====
-- A solver that tries every assignment over integer values; what it gives is feasible.
use mathlib.Core.List.Memᴰ
use qervan_ai.Common.{
  ok, str_eq, ℕ, zero, suc, Bool, true, false, ◌&&◌, leb, ◌≡◌, ◌≤◌, refl, sym, ap, ◌∙◌, subst, ◌↔◌,
  inl, inr, List, [], ◌∷◌, ◌++◌, String, Option, some, none, get_elem?, arith, map, length, All,
  Memᴰ, eq_of_some, none-ne-some, if◌then◌else◌, Bool-cases,
}
use qervan_ai.Common.Int.{◌+ℤ◌, ℤ, pos, ltb_ℤ}
use qervan_ai.Auction.{Solution, Solver, IsSound, row_sum}

abbrev pub assignments : ℕ → List (List Bool)
assignments zero = [] ∷ []
assignments (suc n) =
    map (λ xs. false ∷ xs) (assignments n) ++ map (λ xs. true ∷ xs) (assignments n)

abbrev pub all_within : List (List Bool) → List Bool → Bool
all_within [] xs = true
all_within (row ∷ rows) xs = leb (row_sum row xs) 1 && all_within rows xs

-- Whether the variables at these places are 0.
abbrev pub are_zero : List ℕ → List Bool → Bool
are_zero [] xs = true
are_zero (z ∷ zs) xs = elim (get_elem? xs z) [ some true ↦ false | _ ↦ are_zero zs xs ]

abbrev pub gain : List ℤ → List Bool → ℤ
gain [] xs = pos 0
gain (c ∷ cs) [] = pos 0
gain (c ∷ cs) (x ∷ xs) = let rest = gain cs xs in if x then c +ℤ rest else rest

abbrev pub better : List ℤ → List Bool → Option (Solution ℤ) → Solution ℤ
better cs xs none = record { solution_values = xs; objective_value = gain cs xs }
better cs xs (some y) =
    if ltb_ℤ (gain cs xs) y.objective_value
    then y
    else record { solution_values = xs; objective_value = gain cs xs }

abbrev pub pick : (List Bool → Bool) → List ℤ → List (List Bool) → Option (Solution ℤ)
pick good cs [] = none
pick good cs (xs ∷ rest) =
    if good xs then some (better cs xs (pick good cs rest)) else pick good cs rest

abbrev pub objective_of : Option (Solution ℤ) → Option ℤ
objective_of none = none
objective_of (some x) = some x.objective_value

abbrev pub index_of : List String → String → ℕ
index_of [] name = 0
index_of (n ∷ names) name = if str_eq n name then 0 else suc (index_of names name)

abbrev pub exhaustive : Solver ℤ
exhaustive = record {
  solve = λ m. pick (all_within m.rows) m.objective (assignments (length m.objective));
  lookup_variable = index_of;
  solve_fixed = λ m zeros. ok (
      objective_of (
        pick (λ xs. all_within m.rows xs && are_zero zeros xs) m.objective
          (assignments (length m.objective))));
  dual_value = λ m item. some (pos 0);
}

all_within-All :
    (rows : List (List Bool)) (xs : List Bool)
    → (all_within rows xs ≡ true) ↔ All (λ row. row_sum row xs ≤ 1) rows
all_within-All [] xs = ((λ e. tt), (λ h. refl))
all_within-All (row ∷ rows) xs = (
  (λ e. (ground (arith, e), (all_within-All rows xs).0 (ground (arith, e)))),
  (λ h.
      let first = h.0 in let rest = (all_within-All rows xs).1 h.1 in ground (arith, first, rest)),
)

assignments-length : (n : ℕ) (xs : List Bool) → Memᴰ xs (assignments n) → length xs ≡ n
assignments-length zero xs m = ap length (Memᴰ.eq_of_singleton m)
assignments-length (suc n) xs m =
    elim (Memᴰ.append_cases (map (λ ys. false ∷ ys) (assignments n)) m) [
      | inl l ↦
          let (ys, k, e) = Memᴰ.of_map (λ zs. false ∷ zs) (assignments n) l in
          sym (ap length e) ∙ ap suc (assignments-length n ys k)
      | inr r ↦
          let (ys, k, e) = Memᴰ.of_map (λ zs. true ∷ zs) (assignments n) r in
          sym (ap length e) ∙ ap suc (assignments-length n ys k)
    ]

record Picked (good : List Bool → Bool) (cs : List ℤ) (l : List (List Bool)) (x : Solution ℤ)
    : Type 0 where
  is_good : good x.solution_values ≡ true
  listed : Memᴰ x.solution_values l

better-Picked :
    (good : List Bool → Bool) (cs : List ℤ) (xs : List Bool) (rest : List (List Bool))
    (o : Option (Solution ℤ))
    → good xs ≡ true
    → ((y : Solution ℤ) → o ≡ some y → Picked good cs rest y)
    → Picked good cs (xs ∷ rest) (better cs xs o)
better-Picked good cs xs rest none g below = record { is_good = g; listed = Memᴰ.head refl }
better-Picked good cs xs rest (some y) g below =
    elim (Bool-cases (ltb_ℤ (gain cs xs) y.objective_value)) [
      | inl less ↦
          let p = below y refl in
          rw less (record { is_good = p.is_good; listed = Memᴰ.tail p.listed })
      | inr more ↦ rw more (record { is_good = g; listed = Memᴰ.head refl })
    ]

pick-Picked :
    (good : List Bool → Bool) (cs : List ℤ) (l : List (List Bool)) (x : Solution ℤ)
    → pick good cs l ≡ some x
    → Picked good cs l x
pick-Picked good cs [] x e = absurd (none-ne-some e)
pick-Picked good cs (xs ∷ rest) x e = elim (Bool-cases (good xs)) [
  | inl g ↦
      let taken : better cs xs (pick good cs rest) ≡ x = eq_of_some (sym (rw g refl) ∙ e) in
      subst (λ y. Picked good cs (xs ∷ rest) y) taken
        (better-Picked good cs xs rest (pick good cs rest) g (pick-Picked good cs rest))
  | inr b ↦
      let p = pick-Picked good cs rest x (sym (rw b refl) ∙ e) in
      record { is_good = p.is_good; listed = Memᴰ.tail p.listed }
]

-- What the solver by exhaustion gives is feasible.
pub exhaustive-IsSound : IsSound exhaustive
exhaustive-IsSound = record {
  feasible = λ m x e.
      let p = pick-Picked (all_within m.rows) m.objective (assignments (length m.objective)) x e in
      record {
        one_each = assignments-length (length m.objective) x.solution_values p.listed;
        within = (all_within-All m.rows x.solution_values).0 p.is_good;
      };
}
