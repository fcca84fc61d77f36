-- ===== src/Planner/Dag/Acyclic.antt =====
-- What a search of `validate_dag` that does not raise has gone through: nothing below it is on a
-- cycle.
use mathlib.Core.WellFounded.{Acc}
use qervan_ai.Common.{
  ℕ, zero, suc, ◌≤◌, ◌≡◌, refl, sym, subst, ◌⊎◌, inl, inr, true, false, List, [], ◌∷◌, ok, arith,
  contains, ==_iff, Bool-cases,
}
use qervan_ai.Planner.{links, Graph, children_of, Below, link, more}
use qervan_ai.Planner.Dag.{Entry, push_children, dag_loop, count_links, validate_dag}

module _ (adj : List (List ℕ)) where
  abbrev pub IsChild : ℕ → ℕ → Type 0
  IsChild c r = contains (links adj r) c ≡ true

  -- No infinite chain of children starts at the node.
  abbrev pub IsAcyclic : ℕ → Type 0
  IsAcyclic = Acc IsChild

  -- A visited node is on the path to the next entry, or nothing below it is on a cycle.
  abbrev Settled : List ℕ → List ℕ → Type 0
  Settled path visited =
      (v : ℕ) → contains visited v ≡ true → (contains path v ≡ true) ⊎ IsAcyclic v

  abbrev Runs : ℕ → List Entry → List ℕ → Type 0
  Runs fuel stack visited = dag_loop adj fuel stack visited ≡ ok tt

  -- What a round that does not raise did with the top entry.
  round_cases :
      (fuel c : ℕ) (path : List ℕ) (rest : List Entry) (visited : List ℕ)
      → Runs fuel (record { node = c; path = path } ∷ rest) visited
      → (f : ℕ) × (fuel ≡ suc f)
        × (contains path c ≡ false)
        × ((contains visited c ≡ true) × Runs f rest visited
            ⊎ Runs f (push_children (links adj c) (c ∷ path) rest) (c ∷ visited))
  unfolding dag_loop
  round_cases zero c path rest visited h = cc
  round_cases (suc f) c path rest visited h = (f, refl, ground arith, ground arith)

  Settled-pop :
      (c : ℕ) (path visited : List ℕ)
      → IsAcyclic c
      → Settled (c ∷ path) visited
      → Settled path visited
  Settled-pop c path visited a s v h = elim (Bool-cases (contains path v)) [
    | inl p ↦ inl p
    | inr n ↦ elim (s v h) [
      | inl p ↦ inr (subst IsAcyclic (ground (arith, ==_iff c v)) a)
      | inr b ↦ inr b
    ]
  ]

  Settled-push :
      (c : ℕ) (path visited : List ℕ) → Settled path visited → Settled (c ∷ path) (c ∷ visited)
  Settled-push c path visited s v h = elim (Bool-cases (contains visited v)) [
    | inl p ↦ elim (s v p) [ inl q ↦ inl (ground (arith, q)) | inr b ↦ inr b ]
    | inr n ↦ inl (ground arith)
  ]

  settled_off :
      (c : ℕ) (path visited : List ℕ)
      → contains path c ≡ false
      → (contains path c ≡ true) ⊎ IsAcyclic c
      → IsAcyclic c
  settled_off c path visited off (inl on) = cc
  settled_off c path visited off (inr a) = a

  with_top :
      (c : ℕ) (cs : List ℕ)
      → ((d : ℕ) → contains cs d ≡ true → IsAcyclic d)
      → IsAcyclic c
      → (d : ℕ) → contains (c ∷ cs) d ≡ true
      → IsAcyclic d
  with_top c cs old a d h = elim (Bool-cases (contains cs d)) [
    | inl p ↦ old d p
    | inr n ↦ subst IsAcyclic (ground (arith, ==_iff c d)) a
  ]

  record Finished (bound : ℕ) (cs path : List ℕ) (rest : List Entry) : Type 0 where
    fuel : ℕ
    visited : List ℕ
    within : fuel ≤ bound
    settled : Settled path visited
    runs : Runs fuel rest visited
    acyclic : (c : ℕ) → contains cs c ≡ true → IsAcyclic c

  -- A search that does not raise works off the children of a node, and then goes on with the rest.
  finish :
      (bound fuel : ℕ) (cs path : List ℕ) (rest : List Entry) (visited : List ℕ)
      → fuel ≤ bound
      → Settled path visited
      → Runs fuel (push_children cs path rest) visited
      → Finished bound cs path rest
  unfolding push_children
  finish bound fuel [] path rest visited le s h = record {
    fuel = fuel;
    visited = visited;
    within = le;
    settled = s;
    runs = h;
    acyclic = λ c e. cc;
  }
  finish zero fuel (c ∷ cs) path rest visited le s h =
      let top = record { node = c; path = path } ∷ rest in
      let i = finish zero fuel cs path top visited le s h in
      let (f, e, _, _) = round_cases i.fuel c path rest i.visited i.runs in
      absurd (omega (arith, i.within))
  finish (suc bound) fuel (c ∷ cs) path rest visited le s h =
      let top = record { node = c; path = path } ∷ rest in
      let i = finish (suc bound) fuel cs path top visited le s h in
      let (f, e, off, next) = round_cases i.fuel c path rest i.visited i.runs in
      elim next [
        | inl (old, runs) ↦ record {
          fuel = f;
          visited = i.visited;
          within = omega (arith, i.within);
          settled = i.settled;
          runs = runs;
          acyclic = with_top c cs i.acyclic (settled_off c path i.visited off (i.settled c old));
        }
        | inr runs ↦
            let j =
              finish bound f (links adj c) (c ∷ path) rest (c ∷ i.visited) (omega (arith, i.within))
                (Settled-push c path i.visited i.settled) runs in
            let top_acyclic = Acc.intro c j.acyclic in
            record {
              fuel = j.fuel;
              visited = j.visited;
              within = omega (arith, j.within);
              settled = Settled-pop c path j.visited top_acyclic j.settled;
              runs = j.runs;
              acyclic = with_top c cs i.acyclic top_acyclic;
            }
      ]

  first_link :
      {a c : ℕ}
      → Below adj a c
      → (b : ℕ) × (contains (links adj a) b ≡ true) × ((b ≡ c) ⊎ Below adj b c)
  first_link (link h) = (_, h, inl refl)
  first_link {c = c} (more {b = m} s h) =
      let (b, l, end) = first_link s in
      let follow : Below adj b c = elim end [
        | inl e ↦ link (subst (λ x. contains (links adj x) c ≡ true) (sym e) h)
        | inr t ↦ more t h
      ] in
      (b, l, inr follow)

  -- A node that starts no infinite chain is on no cycle.
  pub IsAcyclic-no_cycle : (a : ℕ) → IsAcyclic a → ¬ Below adj a a
  IsAcyclic-no_cycle a (Acc.intro _ f) s =
      let (b, l, end) = first_link s in
      IsAcyclic-no_cycle b (f b l) (elim end [
        | inl e ↦ link (subst (λ x. contains (links adj x) b ≡ true) (sym e) l)
        | inr t ↦ more t l
      ])

  pub IsAcyclic-Below : {a b : ℕ} → IsAcyclic a → Below adj a b → IsAcyclic b
  IsAcyclic-Below (Acc.intro _ f) (link h) = f _ h
  IsAcyclic-Below a (more s h) = elim (IsAcyclic-Below a s) [ Acc.intro _ f ↦ f _ h ]

module _ {F : Type 0} (g : Graph F) (self : ℕ) where
  -- A validated root starts no infinite chain of children.
  pub validate_dag-IsAcyclic : validate_dag g self ≡ ok tt → IsAcyclic (children_of g) self
  unfolding validate_dag push_children
  validate_dag-IsAcyclic h =
      let adj = children_of g in
      let fuel = suc (count_links adj) in
      let done = finish adj fuel fuel (self ∷ []) [] [] [] (omega arith) (λ v e. cc) h in
      done.acyclic self (ground (arith, ==_iff self self))
