-- ===== src/Auction/Winners.antt =====
-- Which bids win together.
use mathlib.Core.List.Memᴰ
use qervan_ai.Common.{
  Bool-cases, ◌&&◌, false, ℕ, zero, suc, Bool, true, ◌≡◌, ◌≤◌, refl, sym, ap, ◌∙◌, subst, inl, inr,
  List, [], ◌∷◌, some, get_elem?, arith, map, All, Memᴰ, contains, eq_of_some, none-ne-some,
}
use qervan_ai.Auction.{Bid, Solution, Solver, IsSound, row_sum, setup_optimization_model}

-- A bid that the assignment accepts.
pub record Accepted {V : Type 0} (bids : List (Bid V)) (xs : List Bool) (i : ℕ) (bid : Bid V)
    : Type 0 where
  pub listed : get_elem? bids i ≡ some bid
  pub chosen : get_elem? xs i ≡ some true

-- The row of an item.
abbrev row : {V : Type 0} → ℕ → List (Bid V) → List Bool
row {V} item bids = map (λ (bid : Bid V). contains bid.items item) bids

-- An accepted bid for the item counts in the item's row.
row_sum-accepted :
    {V : Type 0} (item : ℕ) (bids : List (Bid V)) (xs : List Bool) (i : ℕ) (bid : Bid V)
    → get_elem? bids i ≡ some bid
    → get_elem? xs i ≡ some true
    → contains bid.items item ≡ true
    → 1 ≤ row_sum (row item bids) xs
unfolding row_sum
row_sum-accepted item [] xs i bid h k e = absurd (none-ne-some h)
row_sum-accepted item (b ∷ bids) [] i bid h k e = absurd (none-ne-some k)
row_sum-accepted item (b ∷ bids) (x ∷ xs) zero bid h k e =
    let chosen = eq_of_some k in
    let listed : contains b.items item ≡ true =
      ap (λ (c : Bid _). contains c.items item) (eq_of_some h) ∙ e in
    ground (arith, chosen, listed)
row_sum-accepted item (b ∷ bids) (x ∷ xs) (suc i) bid h k e =
    let later = row_sum-accepted item bids xs i bid h k e in ground (arith, later)

-- Where a row's sum is at most one, two accepted bids for the item are the same.
row_sum-one :
    {V : Type 0} (item : ℕ) (bids : List (Bid V)) (xs : List Bool) (i j : ℕ) (a b : Bid V)
    → row_sum (row item bids) xs ≤ 1
    → Accepted bids xs i a
    → Accepted bids xs j b
    → contains a.items item ≡ true
    → contains b.items item ≡ true
    → i ≡ j
unfolding row_sum
row_sum-one item [] xs i j a b l p q e f = absurd (none-ne-some p.listed)
row_sum-one item (c ∷ bids) [] i j a b l p q e f = absurd (none-ne-some p.chosen)
row_sum-one item (c ∷ bids) (x ∷ xs) zero zero a b l p q e f = refl
row_sum-one item (c ∷ bids) (x ∷ xs) zero (suc j) a b l p q e f =
    let chosen = eq_of_some p.chosen in
    let listed : contains c.items item ≡ true =
      ap (λ (d : Bid _). contains d.items item) (eq_of_some p.listed) ∙ e in
    let later = row_sum-accepted item bids xs j b q.listed q.chosen f in
    ground (arith, chosen, listed, later, l)
row_sum-one item (c ∷ bids) (x ∷ xs) (suc i) zero a b l p q e f =
    let chosen = eq_of_some q.chosen in
    let listed : contains c.items item ≡ true =
      ap (λ (d : Bid _). contains d.items item) (eq_of_some q.listed) ∙ f in
    let later = row_sum-accepted item bids xs i a p.listed p.chosen e in
    ground (arith, chosen, listed, later, l)
row_sum-one item (c ∷ bids) (x ∷ xs) (suc i) (suc j) a b l p q e f =
    let rest : row_sum (row item bids) xs ≤ 1 = ground (arith, l) in
    ap suc (
      row_sum-one item bids xs i j a b rest (record { listed = p.listed; chosen = p.chosen })
        (record { listed = q.listed; chosen = q.chosen }) e f)

within-item :
    {V : Type 0} (items : List ℕ) (bids : List (Bid V)) (xs : List Bool) (item : ℕ)
    → All (λ r. row_sum r xs ≤ 1) (map (λ i. row i bids) items)
    → Memᴰ item items
    → row_sum (row item bids) xs ≤ 1
within-item [] bids xs item all m = absurd (Memᴰ.not-nil m)
within-item (i ∷ items) bids xs item all m = elim (Memᴰ.cases_cons m) [
  | inl same ↦ subst (λ k. row_sum (row k bids) xs ≤ 1) (sym same) all.0
  | inr later ↦ within-item items bids xs item all.1 later
]

-- Where the solution of the solver is feasible, no item of the auction is sold twice: of two different accepted bids, one at most has it.
pub winners_disjoint :
    {V : Type 0} (s : Solver V) (items : List ℕ) (bids : List (Bid V)) (x : Solution V)
    (item i j : ℕ) (a b : Bid V)
    → IsSound s
    → s.solve (setup_optimization_model items bids) ≡ some x
    → Memᴰ item items
    → Accepted bids x.solution_values i a
    → Accepted bids x.solution_values j b
    → ¬ (i ≡ j)
    → (contains a.items item && contains b.items item) ≡ false
unfolding setup_optimization_model
winners_disjoint s items bids x item i j a b sound found m p q apart =
    let feasible = sound.feasible (setup_optimization_model items bids) x found in
    let within = within-item items bids x.solution_values item feasible.within m in
    elim (Bool-cases (contains a.items item)) [
      | inr e ↦ rw e refl
      | inl e ↦ elim (Bool-cases (contains b.items item)) [
        | inr f ↦ ground (arith, f)
        | inl f ↦ absurd (apart (row_sum-one item bids x.solution_values i j a b within p q e f))
      ]
    ]
