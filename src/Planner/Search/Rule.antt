-- ===== src/Planner/Search/Rule.antt =====
-- A proof rule for the `while` loop of the search.
use qervan_ai.Common.{
  ℕ, zero, suc, ◌≡◌, sym, ◌∙◌, ap, [], ◌∷◌, Option, none, some, ok, inl, inr, Result-cases,
  ok-injective, none-ne-some, eq_of_some, ok-ne-err, subst,
}
use qervan_ai.Common.Real.{Real}
use qervan_ai.Planner.Decompose.{Method}
use qervan_ai.Planner.Evaluate.{PlanningResult}
use qervan_ai.Planner.Search.{PlanningGraph, Heap, round, search_loop, best_or_raise}
use qervan_ai.Planner.Search.Heap.{IsStack}
use qervan_ai.Planner.Search.Ends.{IsStack-tail}

best_or_raise-ok :
    {F : Type 0} (r : Real F) (method : Method F) (pg : PlanningGraph F)
    (best : Option (PlanningResult F)) (plan : PlanningResult F)
    → best_or_raise r method pg best ≡ ok plan
    → best ≡ some plan
unfolding best_or_raise
best_or_raise-ok r method pg none plan h = cc
best_or_raise-ok r method pg (some b) plan h = ap some (ok-injective h)

module _ {F : Type 0} (r : Real F) (method : Method F) (pg : PlanningGraph F) where
  -- The entries under the top one are a stack: so it is at the start, and after every round.
  abbrev pub IsReady : Heap F → Option (PlanningResult F) → Type 0
  IsReady [] best = Unit
  IsReady (e ∷ rest) best = IsStack r rest best

  pub IsStack-IsReady :
      (heap : Heap F) (best : Option (PlanningResult F)) → IsStack r heap best → IsReady heap best
  IsStack-IsReady [] best h = tt
  IsStack-IsReady (e ∷ rest) best h = IsStack-tail r method pg e rest best h

  -- What every round keeps holds of the plan that is returned.
  pub search_loop_rule {ℓ} :
      (P : Heap F → Option (PlanningResult F) → Type ℓ)
      → ((current : F) (node : ℕ) (rest : Heap F) (best : Option (PlanningResult F))
            (s : Heap F × Option (PlanningResult F))
          → IsStack r rest best
          → P ((current, node) ∷ rest) best
          → round r method pg current node rest best ≡ ok s
          → IsStack r s.0 s.1 × P s.0 s.1)
      → (fuel : ℕ) (heap : Heap F) (best : Option (PlanningResult F)) (plan : PlanningResult F)
      → IsReady heap best
      → P heap best
      → search_loop r method pg fuel heap best ≡ some (ok plan)
      → P [] (some plan)
  unfolding search_loop
  search_loop_rule P keep zero [] best plan ready p h =
      subst (P []) (best_or_raise-ok r method pg best plan (eq_of_some h)) p
  search_loop_rule P keep (suc fuel) [] best plan ready p h =
      subst (P []) (best_or_raise-ok r method pg best plan (eq_of_some h)) p
  search_loop_rule P keep zero (e ∷ rest) best plan ready p h = absurd (none-ne-some h)
  search_loop_rule P keep (suc fuel) ((current, node) ∷ rest) best plan ready p h =
      elim (Result-cases (round r method pg current node rest best)) [
        | inr (e, failed) ↦
            absurd (ok-ne-err plan e (eq_of_some (sym h ∙ rw (failed, search_loop))))
        | inl (s, done) ↦
            let (stack, p') = keep current node rest best s ready p done in
            search_loop_rule P keep fuel s.0 s.1 plan (IsStack-IsReady s.0 s.1 stack) p'
              (sym (rw (done, search_loop)) ∙ h)
      ]
