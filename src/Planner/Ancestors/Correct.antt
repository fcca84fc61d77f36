-- ===== src/Planner/Ancestors/Correct.antt =====
-- `get_ancestors` ends, and returns the nodes that one or more precondition links lead to.
use qervan_ai.Common.{
  ℕ, zero, suc, ◌+◌, ◌≤◌, ◌≡◌, refl, sym, ap, subst, ◌↔◌, ◌⊎◌, inl, inr, true, false, ◌||◌, List,
  [], ◌∷◌, some, err, arith, length, contains, contains-append, if◌then◌else◌, List-cases,
  Bool-cases, ==_iff,
}
use qervan_ai.Planner.{Graph, circular_dependency, preconditions_of, links, Below, link, more}
use qervan_ai.Planner.Ancestors.{
  Walk, visit, visit_all, walk_loop, all_links, get_ancestors, append_child, add_child,
}

-- How many entries of `xs` are not among the ancestors found.
absent : List ℕ → List ℕ → ℕ
absent [] found = 0
absent (x ∷ xs) found = (if contains found x then 0 else 1) + absent xs found

absent-cons-le : (xs found : List ℕ) (p : ℕ) → absent xs (p ∷ found) ≤ absent xs found
unfolding absent
absent-cons-le [] found p = omega arith
absent-cons-le (x ∷ xs) found p = ground (arith, absent-cons-le xs found p)

absent-cons-lt :
    (xs found : List ℕ) (p : ℕ)
    → contains xs p ≡ true
    → contains found p ≡ false
    → suc (absent xs (p ∷ found)) ≤ absent xs found
unfolding absent
absent-cons-lt [] found p h n = cc
absent-cons-lt (x ∷ xs) found p h n =
    ground (arith, absent-cons-lt xs found p, absent-cons-le xs found p, ==_iff x p, ==_iff p x)

absent-nil : (xs : List ℕ) → absent xs [] ≡ length xs
unfolding absent
absent-nil [] = refl
absent-nil (x ∷ xs) = omega (arith, absent-nil xs)

links-all_links :
    (adj : List (List ℕ)) (r v : ℕ)
    → contains (links adj r) v ≡ true
    → contains (all_links adj) v ≡ true
links-all_links [] r v h = cc
links-all_links (l ∷ adj) zero v h = ground (arith, contains-append l (all_links adj) v)
links-all_links (l ∷ adj) (suc r) v h =
    ground (arith, contains-append l (all_links adj) v, links-all_links adj r v)

-- A round pops one node and pushes only nodes that it adds to the set.
abbrev work : List ℕ → Walk → ℕ
work all w = length w.stack + absent all w.ancestors

visit_all-work :
    (all ps : List ℕ) (w : Walk)
    → ((v : ℕ) → contains ps v ≡ true → contains all v ≡ true)
    → work all (visit_all ps w) ≤ work all w
unfolding visit_all visit
visit_all-work all [] w sub = omega arith
visit_all-work all (p ∷ ps) w sub =
    let tail = visit_all-work all ps (visit p w) (λ v h. sub v (ground (arith, h))) in
    ground (arith, tail, absent-cons-lt all w.ancestors p, sub p, ==_iff p p)

visit_all-ancestors :
    (ps : List ℕ) (w : Walk) (v : ℕ)
    → contains (visit_all ps w).ancestors v ≡ (contains w.ancestors v || contains ps v)
unfolding visit_all visit
visit_all-ancestors [] w v = ground arith
visit_all-ancestors (p ∷ ps) w v = ground (arith, visit_all-ancestors ps (visit p w) v, ==_iff p v)

-- The stack grows by nodes of `ps`, and every node that is new in the set is on it.
visit_all-stack :
    (ps : List ℕ) (w : Walk) (v : ℕ)
    → (contains w.stack v ≡ true → contains (visit_all ps w).stack v ≡ true)
      × (contains (visit_all ps w).stack v ≡ true
          → (contains w.stack v ≡ true) ⊎ (contains ps v ≡ true))
      × (contains (visit_all ps w).ancestors v ≡ true
          → (contains w.ancestors v ≡ true) ⊎ (contains (visit_all ps w).stack v ≡ true))
unfolding visit_all visit
visit_all-stack [] w v = (λ h. h, λ h. inl h, λ h. inl h)
visit_all-stack (p ∷ ps) w v = ground (arith, visit_all-stack ps (visit p w) v, ==_iff p v)

module _ (adj : List (List ℕ)) (self : ℕ) where
  record Inv (w : Walk) : Type 0 where
    found : (v : ℕ) → contains w.ancestors v ≡ true → Below adj self v
    waiting : (v : ℕ) → contains w.stack v ≡ true → (self ≡ v) ⊎ Below adj self v
    closed :
        (u v : ℕ)
        → (self ≡ u) ⊎ (contains w.ancestors u ≡ true)
        → contains (links adj u) v ≡ true
        → (contains w.stack u ≡ true) ⊎ (contains w.ancestors v ≡ true)

  Below-step :
      (u v : ℕ) → (self ≡ u) ⊎ Below adj self u → contains (links adj u) v ≡ true → Below adj self v
  Below-step u v (inl e) h = link (subst (λ x. contains (links adj x) v ≡ true) (sym e) h)
  Below-step u v (inr b) h = more b h

  Inv-start : Inv (record { ancestors = []; stack = self ∷ [] })
  Inv-start = record {
    found = λ v h. cc;
    waiting = λ v h. ground (arith, ==_iff self v);
    closed = λ u v s h. ground (arith, ==_iff self u);
  }

  Inv-round :
      (w : Walk) (u : ℕ) (rest : List ℕ)
      → w.stack ≡ u ∷ rest
      → Inv w
      → Inv (visit_all (links adj u) (record w { stack = rest }))
  Inv-round w u rest e i =
      let w' = record w { stack = rest } in
      let at_u = i.waiting u (simp e (ground (arith, ==_iff u u))) in
      record {
        found = λ v h.
            ground (arith, visit_all-ancestors (links adj u) w' v, i.found v, Below-step u v at_u);
        waiting = λ v h. ground (
          arith,
          visit_all-stack (links adj u) w' v,
          i.waiting v,
          Below-step u v at_u,
          ap (λ s. contains s v) e,
        );
        closed = λ x v s h. ground (
          arith,
          visit_all-stack (links adj u) w' x,
          visit_all-ancestors (links adj u) w' v,
          visit_all-ancestors (links adj u) w' x,
          i.closed x v,
          ap (λ s. contains s x) e,
          ==_iff u x,
          ap (λ y. contains (links adj y) v),
        );
      }

  -- With an empty stack the set is closed under links.
  closed-Below :
      (w : Walk) {v : ℕ} → w.stack ≡ [] → Inv w → Below adj self v → contains w.ancestors v ≡ true
  closed-Below w {v} e i (link h) =
      ground (arith, i.closed self v (inl refl) h, ap (λ s. contains s self) e)
  closed-Below w {v} e i (more {b = b} s h) =
      ground (arith, i.closed b v (inr (closed-Below w e i s)) h, ap (λ s. contains s b) e)

  walk_loop_ends :
      (fuel : ℕ) (w : Walk)
      → work (all_links adj) w ≤ fuel
      → Inv w
      → (found : List ℕ) × (walk_loop adj fuel w ≡ some found)
        × ((v : ℕ) → (contains found v ≡ true) ↔ Below adj self v)
  unfolding walk_loop
  walk_loop_ends zero w h i =
      let empty : w.stack ≡ [] = ground arith in
      (w.ancestors, simp (empty, walk_loop), λ v. (i.found v, closed-Below w empty i))
  walk_loop_ends (suc fuel) w h i = elim (List-cases w.stack) [
    | inl empty ↦ (w.ancestors, simp (empty, walk_loop), λ v. (i.found v, closed-Below w empty i))
    | inr (u, rest, e) ↦
        let w' = record w { stack = rest } in
        let less = visit_all-work (all_links adj) (links adj u) w' (links-all_links adj u) in
        let (found, ends, right) =
          walk_loop_ends fuel (visit_all (links adj u) w') (omega (arith, ap length e))
            (Inv-round w u rest e i) in
        (found, rw (e, walk_loop) ends, right)
  ]

-- For every graph, cyclic ones included, `get_ancestors` ends and returns exactly the nodes that one or more
-- precondition links lead to from the node.
pub get_ancestors_correct :
    {F : Type 0} (g : Graph F) (self : ℕ)
    → (found : List ℕ) × (get_ancestors g self ≡ some found)
      × ((v : ℕ) → (contains found v ≡ true) ↔ Below (preconditions_of g) self v)
unfolding get_ancestors
get_ancestors_correct g self =
    let adj = preconditions_of g in
    walk_loop_ends adj self (suc (length (all_links adj)))
      (record { ancestors = []; stack = self ∷ [] }) (omega (arith, absent-nil (all_links adj)))
      (Inv-start adj self)

pub add_child_cases :
    {F : Type 0} (g : Graph F) (self node : ℕ)
    → (Below (preconditions_of g) self node × (add_child g self node ≡ err circular_dependency))
      ⊎ ((¬ Below (preconditions_of g) self node)
          × (add_child g self node ≡ append_child g self node))
unfolding add_child
add_child_cases g self node =
    let (found, ends, right) = get_ancestors_correct g self in
    elim (Bool-cases (contains found node)) [
      | inl seen ↦ inl ((right node).0 seen, rw (ends, add_child) (rw seen))
      | inr new ↦ inr (λ b. cc ((right node).1 b), rw (ends, add_child) (rw new))
    ]
