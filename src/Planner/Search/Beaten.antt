-- ===== src/Planner/Search/Beaten.antt =====
-- A pass over decompositions keeps the cheapest of them.
use qervan_ai.Common.{
  ℕ, ◌≡◌, sym, ◌∙◌, ap, inl, inr, true, false, List, [], ◌∷◌, Option, none, some, ok, All,
  Bool-cases, >>=-eq-ok, ok-injective, subst,
}
use qervan_ai.Common.Real.{Real}
use qervan_ai.Planner.Decompose.{Method}
use qervan_ai.Planner.Evaluate.{PlanningResult, evaluate_option}
use qervan_ai.Planner.Search.{PlanningGraph, Heap, improves, consider, consider_all}
use qervan_ai.Planner.Search.Heap.{IsStack}
use qervan_ai.Planner.Search.Steps.{consider_cases, Consider-IsStack}

module _ {F : Type 0} (r : Real F) (method : Method F) (pg : PlanningGraph F) where
  abbrev pub NoMoreThan : F → Option (PlanningResult F) → Type 0
  NoMoreThan cost none = ⊥
  NoMoreThan cost (some best) = r.lt cost best.cost ≡ false

  -- The option, if it is feasible at all, costs no less than the best plan.
  abbrev pub Beaten : F → Option (PlanningResult F) → List ℕ → Type 0
  Beaten current best option =
      (plan : PlanningResult F)
      → evaluate_option r pg.nodes pg.resource_pool option ≡ ok plan
      → r.lt pg.risk_threshold plan.risk_factor ≡ false
      → NoMoreThan (r.add current plan.cost) best

  NoMoreThan-taken :
      (cost total : F) (best : Option (PlanningResult F)) (plan : PlanningResult F)
      → improves r total best ≡ true
      → NoMoreThan cost best
      → r.lt cost total ≡ false
  unfolding improves
  NoMoreThan-taken cost total none plan i h = absurd h
  NoMoreThan-taken cost total (some best) plan i h = elim (Bool-cases (r.lt cost total)) [
    | inl less ↦ cc (r.lt_trans cost total best.cost less i)
    | inr n ↦ n
  ]

  not_improved :
      (total : F) (best : Option (PlanningResult F))
      → improves r total best ≡ false
      → NoMoreThan total best
  unfolding improves
  not_improved total none h = cc
  not_improved total (some best) h = h

  -- A pass over one option only lowers the best cost, and leaves the option beaten.
  consider-Beaten :
      (current : F) (option : List ℕ) (heap : Heap F) (best : Option (PlanningResult F))
      (s : Heap F × Option (PlanningResult F))
      → IsStack r heap best
      → consider r method pg current option heap best ≡ ok s
      → ((cost : F) → NoMoreThan cost best → NoMoreThan cost s.1)
        × Beaten current s.1 option
        × IsStack r s.0 s.1
  unfolding consider
  consider-Beaten current option heap best s stack h =
      elim (consider_cases r method pg current option heap best s stack h) [
        | inl skip ↦
            let best_lem = ap (λ (x : Heap F × Option (PlanningResult F)). x.1) skip.same in
            (
              λ cost n. rw best_lem n,
              λ plan e low.
                  rw best_lem (not_improved (r.add current plan.cost) best (skip.why plan e low)),
              subst (λ (x : Heap F × Option (PlanningResult F)). IsStack r x.0 x.1) (sym skip.same)
                  stack,
            )
        | inr c ↦ (
          λ cost n.
              rw c.best_lem
                (NoMoreThan-taken cost (r.add current c.plan.cost) best c.plan c.takes.better n),
          λ plan e low. rw c.best_lem (
              subst
                (λ (x : PlanningResult F).
                  r.lt (r.add current x.cost) (r.add current c.plan.cost) ≡ false)
                (ok-injective (sym c.takes.evaluated ∙ e))
                (r.lt_irrefl (r.add current c.plan.cost))),
          Consider-IsStack r method pg current option heap best s stack c,
        )
      ]

  pub consider_all-Beaten :
      (current : F) (options : List (List ℕ)) (heap : Heap F) (best : Option (PlanningResult F))
      (s : Heap F × Option (PlanningResult F))
      → IsStack r heap best
      → consider_all r method pg current options heap best ≡ ok s
      → ((cost : F) → NoMoreThan cost best → NoMoreThan cost s.1) × All (Beaten current s.1) options
  unfolding consider_all
  consider_all-Beaten current [] heap best s stack h = (
    λ cost n.
        subst (λ (x : Heap F × Option (PlanningResult F)). NoMoreThan cost x.1) (ok-injective h) n,
    tt,
  )
  consider_all-Beaten current (option ∷ options) heap best s stack h =
      let (mid, first, next) =
        >>=-eq-ok (consider r method pg current option heap best)
          (λ (x : Heap F × Option (PlanningResult F)).
            consider_all r method pg current options x.0 x.1)
          h in
      let (lower, beaten, stack') = consider-Beaten current option heap best mid stack first in
      let (lowers, all_beaten) = consider_all-Beaten current options mid.0 mid.1 s stack' next in
      (
        λ cost n. lowers cost (lower cost n),
        (λ plan e low. lowers (r.add current plan.cost) (beaten plan e low), all_beaten),
      )
