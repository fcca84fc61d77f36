-- ===== src/Planner/Search/Ends.antt =====
-- The search of a validated graph ends.
use mathlib.Core.WellFounded.{Acc}
use qervan_ai.Common.{
  ℕ, suc, ◌≡◌, refl, sym, ◌∙◌, ap, inl, inr, true, List, [], ◌∷◌, ◌++◌, Option, none, some, Result,
  ok, err, arith, contains, All, Bool-cases, Option-cases, Result-cases, >>=-eq-ok, ==_iff,
  ok-injective, get_elem?, subst, ok-ne-err,
}
use qervan_ai.Common.Real.{Real}
use qervan_ai.Planner.{PlanError, index_error, links, children_of}
use qervan_ai.Planner.Build.{links-children}
use qervan_ai.Planner.Dag.{validate_dag}
use qervan_ai.Planner.Dag.Acyclic.{IsAcyclic, validate_dag-IsAcyclic}
use qervan_ai.Planner.Decompose.{Method, decompose}
use qervan_ai.Planner.Decompose.Children.{Subset, decompose-Subset}
use qervan_ai.Planner.Evaluate.{PlanningResult}
use qervan_ai.Planner.Search.{
  PlanningGraph, Heap, last_of, is_atomic, consider_all, round, search_loop, ao_star_search,
  generate_plan,
}
use qervan_ai.Planner.Search.Heap.{IsStack}
use qervan_ai.Planner.Search.Steps.{Takes, consider_all_rule}

pub last_of-contains : (option : List ℕ) (n : ℕ) → last_of option ≡ ok n → contains option n ≡ true
unfolding last_of
last_of-contains [] n h = cc
last_of-contains (m ∷ []) n h = ground (arith, ==_iff m n)
last_of-contains (m ∷ k ∷ ns) n h = ground (arith, last_of-contains (k ∷ ns) n h)

module _ {F : Type 0} (r : Real F) (method : Method F) (pg : PlanningGraph F) where
  abbrev adj : List (List ℕ)
  adj = children_of pg.nodes

  -- The entries that a round puts on the heap are children of the node that left it.
  record Pushes (node : ℕ) (rest heap : Heap F) : Type 0 where
    pushed : List (F × ℕ)
    heap_lem : heap ≡ pushed ++ rest
    children : All (λ (e : F × ℕ). contains (links adj node) e.1 ≡ true) pushed

  consider_all-Pushes :
      (node : ℕ) (current : F) (options : List (List ℕ)) (rest : Heap F)
      (best : Option (PlanningResult F)) (s : Heap F × Option (PlanningResult F))
      → All (Subset (links adj node)) options
      → IsStack r rest best
      → consider_all r method pg current options rest best ≡ ok s
      → IsStack r s.0 s.1 × Pushes node rest s.0
  consider_all-Pushes node current options rest best s sub stack h =
      consider_all_rule r method pg (λ heap _. Pushes node rest heap) current options rest best s
        (keep options sub) stack (record { pushed = []; heap_lem = refl; children = tt }) h
    where
      keep :
          (os : List (List ℕ))
          → All (Subset (links adj node)) os
          → All
              (λ o.
                (heap : Heap F) (b : Option (PlanningResult F)) (plan : PlanningResult F) (last : ℕ)
                → Takes r method pg current o b plan last
                → Pushes node rest heap
                → Pushes node rest ((r.add current plan.cost, last) ∷ heap))
              os
      keep [] sub' = tt
      keep (o ∷ os) (sub', subs) = (
        λ heap b plan last t p. record {
          pushed = (r.add current plan.cost, last) ∷ p.pushed;
          heap_lem = ap (λ (l : Heap F). (r.add current plan.cost, last) ∷ l) p.heap_lem;
          children = (sub' last (last_of-contains o last t.ends), p.children);
        },
        keep os subs,
      )

  round-Pushes :
      (current : F) (node : ℕ) (rest : Heap F) (best : Option (PlanningResult F))
      (s : Heap F × Option (PlanningResult F))
      → IsStack r rest best
      → round r method pg current node rest best ≡ ok s
      → IsStack r s.0 s.1 × Pushes node rest s.0
  unfolding round
  round-Pushes current node rest best s stack h = elim (Option-cases (get_elem? pg.nodes node)) [
    | inl e ↦ absurd (ok-ne-err s index_error (sym h ∙ rw (e, round)))
    | inr (t, e) ↦ elim (Bool-cases (is_atomic t.class)) [
      | inl atomic ↦
          subst
            (λ (x : Heap F × Option (PlanningResult F)). IsStack r x.0 x.1 × Pushes node rest x.0)
            (ok-injective (sym (rw (e, round) (rw atomic)) ∙ h))
            (stack, record { pushed = []; heap_lem = refl; children = tt })
      | inr composite ↦
          let (options, first, next) =
            >>=-eq-ok (decompose method pg.nodes pg.resource_pool t)
              (λ os. consider_all r method pg current os rest best)
              (sym (rw (e, round) (rw composite)) ∙ h) in
          let sub : All (Subset (links adj node)) options =
            rw (links-children pg.nodes node t e)
              (decompose-Subset method pg.nodes pg.resource_pool t first) in
          consider_all-Pushes node current options rest best s sub stack next
    ]
  ]

  -- The loop ends from this state.
  record Ends (heap : Heap F) (best : Option (PlanningResult F)) : Type 0 where
    fuel : ℕ
    result : Result PlanError (PlanningResult F)
    ends : search_loop r method pg fuel heap best ≡ some result

  abbrev EndsBelow : Heap F → Type 0
  EndsBelow rest = (best : Option (PlanningResult F)) → IsStack r rest best → Ends rest best

  EndsWith : ℕ → Type 0
  EndsWith node =
      (current : F) (rest : Heap F) (best : Option (PlanningResult F))
      → EndsBelow rest
      → IsStack r rest best
      → Ends ((current, node) ∷ rest) best

  pub IsStack-tail :
      (e : F × ℕ) (rest : Heap F) (best : Option (PlanningResult F))
      → IsStack r (e ∷ rest) best
      → IsStack r rest best
  IsStack-tail e rest none h = cc
  IsStack-tail e rest (some b) h = h.1

  Ends-pushed :
      (rest : Heap F) (pushed : List (F × ℕ))
      → All (λ (e : F × ℕ). EndsWith e.1) pushed
      → EndsBelow rest
      → EndsBelow (pushed ++ rest)
  unfolding EndsWith
  Ends-pushed rest [] h below best stack = below best stack
  Ends-pushed rest (e ∷ pushed) (h, hs) below best stack =
      h e.0 (pushed ++ rest) best (Ends-pushed rest pushed hs below)
        (IsStack-tail e (pushed ++ rest) best stack)

  All-map :
      (P Q : F × ℕ → Type 0) (xs : List (F × ℕ)) → ((x : F × ℕ) → P x → Q x) → All P xs → All Q xs
  All-map P Q [] f h = tt
  All-map P Q (x ∷ xs) f (h, hs) = (f x h, All-map P Q xs f hs)

  IsAcyclic-EndsWith : (node : ℕ) → IsAcyclic adj node → EndsWith node
  unfolding EndsWith search_loop
  IsAcyclic-EndsWith node (Acc.intro _ below) current rest best ends stack =
      elim (Result-cases (round r method pg current node rest best)) [
        | inr (e, h) ↦ record { fuel = 1; result = err e; ends = rw (h, search_loop) }
        | inl (s, h) ↦
            let (stack', p) = round-Pushes current node rest best s stack h in
            let go : Ends s.0 s.1 = rw p.heap_lem (
              Ends-pushed rest p.pushed
                (All-map _ _ p.pushed (λ e c. IsAcyclic-EndsWith e.1 (below e.1 c)) p.children) ends
                s.1 (rw p.heap_lem at stack')) in
            record { fuel = suc go.fuel; result = go.result; ends = rw (h, search_loop) go.ends }
      ]

-- On every input the planner returns a plan or raises: some amount of fuel is enough. A cyclic graph is
-- refused, and in a validated one every plan that is taken is for a child of the node that left the heap.
pub generate_plan_ends :
    {F : Type 0} (r : Real F) (method : Method F) (pg : PlanningGraph F)
    → (fuel : ℕ) × (result : Result PlanError (PlanningResult F)) × (generate_plan r method pg fuel
        ≡ some result)
unfolding generate_plan ao_star_search EndsWith search_loop
generate_plan_ends r method pg = elim (Result-cases (validate_dag pg.nodes pg.root)) [
  | inr (e, h) ↦ (0, err e, rw (h, generate_plan))
  | inl (u, h) ↦
      let acyclic = validate_dag-IsAcyclic pg.nodes pg.root h in
      let go =
        IsAcyclic-EndsWith r method pg pg.root acyclic r.zero_r [] none
          (λ best stack. record { fuel = 0; result = _; ends = refl }) refl in
      (go.fuel, go.result, rw (h, generate_plan) go.ends)
]
