-- ===== src/Planner/Draw/Complete.antt =====
-- PlanningGraph.visualize: what is drawn.
use qervan_ai.Common.{
  ◌∙◌, ℕ, zero, suc, ◌+◌, ◌≤◌, ◌≡◌, refl, sym, ap, subst, ◌↔◌, ◌⊎◌, inl, inr, true, false, List, [],
  ◌∷◌, ◌++◌, some, arith, length, contains, ==_iff, Bool-cases, ◌||◌,
}
use qervan_ai.Planner.{Graph, children_of, links, Below, link, more}
use qervan_ai.Planner.Dag.{count_links}
use qervan_ai.Planner.Dag.Ends.{unvisited, unvisited-mark, unvisited-nil}
use qervan_ai.Planner.Draw.{Item, items_of, push_all, draw_loop, visualize}
use qervan_ai.Planner.Draw.Items.{items_of-drawing_of, draw_all}

abbrev pub Distinct : List ℕ → Type 0
Distinct [] = Unit
Distinct (x ∷ xs) = (contains xs x ≡ false) × Distinct xs

length-push_all : (cs stack : List ℕ) → length (push_all cs stack) ≡ length cs + length stack
unfolding push_all
length-push_all [] stack = omega arith
length-push_all (c ∷ cs) stack = omega (arith, length-push_all cs (c ∷ stack))

contains-push_all :
    (cs stack : List ℕ) (v : ℕ)
    → contains (push_all cs stack) v ≡ (contains cs v || contains stack v)
unfolding push_all
contains-push_all [] stack v = refl
contains-push_all (c ∷ cs) stack v = ground (arith, contains-push_all cs (c ∷ stack) v)

module _ {F : Type 0} (g : Graph F) (root : ℕ) where
  abbrev Reached : ℕ → Type 0
  Reached v = (root ≡ v) ⊎ Below (children_of g) root v

  record Inv (stack visited : List ℕ) : Type 0 where
    waiting : (v : ℕ) → contains stack v ≡ true → Reached v
    found : (v : ℕ) → contains visited v ≡ true → Reached v
    start : (contains stack root ≡ true) ⊎ (contains visited root ≡ true)
    closed :
        (u v : ℕ)
        → contains visited u ≡ true
        → contains (links (children_of g) u) v ≡ true
        → (contains stack v ≡ true) ⊎ (contains visited v ≡ true)
    distinct : Distinct visited

  Reached-step : (u v : ℕ) → Reached u → contains (links (children_of g) u) v ≡ true → Reached v
  Reached-step u v (inl e) h =
      inr (link (subst (λ x. contains (links (children_of g) x) v ≡ true) (sym e) h))
  Reached-step u v (inr b) h = inr (more b h)

  Inv-start : Inv (root ∷ []) []
  Inv-start = record {
    waiting = λ v h. ground (arith, ==_iff root v);
    found = λ v h. cc;
    start = inl (ground (arith, ==_iff root root));
    closed = λ u v h k. cc;
    distinct = tt;
  }

  Inv-skip :
      (u : ℕ) (rest visited : List ℕ)
      → contains visited u ≡ true
      → Inv (u ∷ rest) visited
      → Inv rest visited
  Inv-skip u rest visited old i = record {
    waiting = λ v h. i.waiting v (ground (arith, h));
    found = i.found;
    start = ground (arith, i.start, old, ==_iff u root);
    closed = λ x v h k. ground (arith, i.closed x v h k, old, ==_iff u v);
    distinct = i.distinct;
  }

  Inv-expand :
      (u : ℕ) (rest visited : List ℕ)
      → contains visited u ≡ false
      → Inv (u ∷ rest) visited
      → Inv (push_all (links (children_of g) u) rest) (u ∷ visited)
  Inv-expand u rest visited new i =
      let at_u = i.waiting u (ground (arith, ==_iff u u)) in
      record {
        waiting = λ v h. ground (
          arith,
          contains-push_all (links (children_of g) u) rest v,
          i.waiting v,
          Reached-step u v at_u,
          h,
        );
        found = λ v h. elim (Bool-cases (contains visited v)) [
          | inl old ↦ i.found v old
          | inr other ↦ subst Reached (ground (arith, h, other, ==_iff u v)) at_u
        ];
        start = ground (arith, i.start, contains-push_all (links (children_of g) u) rest root);
        closed = λ x v h k. elim (Bool-cases (contains visited x)) [
          | inl old ↦ ground (
            arith,
            i.closed x v old k,
            contains-push_all (links (children_of g) u) rest v,
            ==_iff u v,
          )
          | inr other ↦
              let same : u ≡ x = ground (arith, h, other, ==_iff u x) in
              let child = subst (λ y. contains (links (children_of g) y) v ≡ true) (sym same) k in
              inl (ground (arith, child, contains-push_all (links (children_of g) u) rest v))
        ];
        distinct = (new, i.distinct);
      }

  closed-Below :
      (visited : List ℕ) {v : ℕ}
      → Inv [] visited
      → Below (children_of g) root v
      → contains visited v ≡ true
  closed-Below visited {v} i (link h) =
      let at_root : contains visited root ≡ true = ground (arith, i.start) in
      ground (arith, i.closed root v at_root h)
  closed-Below visited {v} i (more {b = b} s h) =
      ground (arith, i.closed b v (closed-Below visited i s) h)

  Inv-end : (visited : List ℕ) → Inv [] visited → (v : ℕ) → (contains visited v ≡ true) ↔ Reached v
  Inv-end visited i v = (
    i.found v,
    (λ h. elim h [
      | inl same ↦ subst (λ x. contains visited x ≡ true) same (ground (arith, i.start))
      | inr b ↦ closed-Below visited i b
    ]),
  )

  draw_loop_ends :
      (fuel : ℕ) (stack visited : List ℕ) (dot : List Item)
      → length stack + unvisited visited 0 (children_of g) ≤ fuel
      → dot ≡ draw_all g visited
      → Inv stack visited
      → (vs : List ℕ) × (draw_loop g fuel stack visited dot ≡ some (draw_all g vs))
        × Distinct vs
        × ((v : ℕ) → (contains vs v ≡ true) ↔ Reached v)
  unfolding draw_loop
  draw_loop_ends fuel [] visited dot enough drawn i =
      (visited, ap some drawn, i.distinct, Inv-end visited i)
  draw_loop_ends zero (u ∷ rest) visited dot enough drawn i = absurd (omega (arith, enough))
  draw_loop_ends (suc fuel) (u ∷ rest) visited dot enough drawn i =
      elim (Bool-cases (contains visited u)) [
        | inl old ↦
            let (vs, ends, once, right) =
              draw_loop_ends fuel rest visited dot (omega (arith, enough)) drawn
                (Inv-skip u rest visited old i) in
            (vs, rw (old, draw_loop) ends, once, right)
        | inr new ↦
            let marked : length (links (children_of g) u)
                  + unvisited (u ∷ visited) 0 (children_of g)
                ≡ unvisited visited 0 (children_of g) =
              ground (arith, unvisited-mark visited 0 u (children_of g), new) in
            let pushed = length-push_all (links (children_of g) u) rest in
            let (vs, ends, once, right) =
              draw_loop_ends fuel (push_all (links (children_of g) u) rest) (u ∷ visited)
                (dot ++ items_of g u) (omega (arith, enough, marked, pushed))
                (ap (λ d. d ++ items_of g u) drawn
                  ∙ ap (λ d. draw_all g visited ++ d) (items_of-drawing_of g u))
                (Inv-expand u rest visited new i) in
            (vs, rw (new, draw_loop) ends, once, right)
      ]

  -- For every graph, cyclic ones included, visualize ends; it draws the root and the nodes that child links lead to
  -- from it, and no other, each of them once: an item with its name, a rectangle for an AND node and a
  -- diamond for others, filled if it is atomic, followed by an edge to each of its children, in order.
  pub visualize_complete :
      (vs : List ℕ) × (visualize g root ≡ some (draw_all g vs))
      × Distinct vs
      × ((v : ℕ) → (contains vs v ≡ true) ↔ ((root ≡ v) ⊎ Below (children_of g) root v))
  unfolding visualize
  visualize_complete =
      draw_loop_ends (suc (count_links (children_of g))) (root ∷ []) [] []
        (omega (arith, unvisited-nil 0 (children_of g))) refl Inv-start
