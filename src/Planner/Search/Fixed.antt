-- ===== src/Planner/Search/Fixed.antt =====
-- Where no cost is negative, a plan that is found first is never replaced from an entry that costs
-- no less.
use qervan_ai.Common.{
  ℕ, ◌≡◌, sym, ◌∙◌, inl, inr, false, List, [], ◌∷◌, Option, some, ok, All, All-of, All-get_elem?,
  Bool-cases, Option-cases, >>=-eq-ok, ok-injective, ok-ne-err, get_elem?, subst, true-ne-false,
}
use qervan_ai.Common.Real.{Real}
use qervan_ai.Planner.{TaskNode, Graph, index_error}
use qervan_ai.Planner.Decompose.{Method, decompose}
use qervan_ai.Planner.Evaluate.{PlanningResult, evaluate_option}
use qervan_ai.Planner.Evaluate.Usage.{
  evaluate_option-IsPlanOf, sum_costs, pending_nodes, State-cases, pending_nodes-none,
  pending_nodes-pending, pending_nodes-other,
}
use qervan_ai.Planner.Search.{PlanningGraph, Heap, is_atomic, improves, consider_all, round}
use qervan_ai.Planner.Search.Heap.{IsStack}
use qervan_ai.Planner.Search.Steps.{Takes, consider_all_rule}

module _ {F : Type 0} (r : Real F) where
  abbrev pub IsNonnegCost : TaskNode F → Type 0
  IsNonnegCost t = r.lt t.cost r.zero_r ≡ false

  pending-nonneg :
      (g : Graph F) (ns : List ℕ) → All IsNonnegCost g → All IsNonnegCost (pending_nodes g ns)
  pending-nonneg g [] h = tt
  pending-nonneg g (n ∷ ns) h =
      let rest = pending-nonneg g ns h in
      elim (Option-cases (get_elem? g n)) [
        | inl e ↦ subst (All IsNonnegCost) (sym (pending_nodes-none g n ns e)) rest
        | inr (t, e) ↦ elim (State-cases t.state) [
          | inl p ↦
              subst (All IsNonnegCost) (sym (pending_nodes-pending g n ns t e p))
                (All-get_elem? IsNonnegCost g n h e, rest)
          | inr o ↦ subst (All IsNonnegCost) (sym (pending_nodes-other g n ns t e o)) rest
        ]
      ]

  sum_costs-nonneg :
      (acc : F) (ts : List (TaskNode F))
      → All IsNonnegCost ts
      → r.lt acc r.zero_r ≡ false
      → r.lt (sum_costs r acc ts) r.zero_r ≡ false
  sum_costs-nonneg acc [] h k = k
  sum_costs-nonneg acc (t ∷ ts) (h, hs) k =
      sum_costs-nonneg (r.add acc t.cost) ts hs
        (r.lt_cotrans (r.add acc t.cost) acc r.zero_r (r.add_grows acc t.cost h) k)

module _ {F : Type 0} (r : Real F) (method : Method F) (pg : PlanningGraph F) where
  module _ (nonneg : All (IsNonnegCost r) pg.nodes) where
    plan-nonneg :
        (option : List ℕ) (plan : PlanningResult F)
        → evaluate_option r pg.nodes pg.resource_pool option ≡ ok plan
        → r.lt plan.cost r.zero_r ≡ false
    plan-nonneg option plan e =
        rw ((evaluate_option-IsPlanOf r pg.nodes pg.resource_pool option plan e).cost) (
          sum_costs-nonneg r r.zero_r (pending_nodes pg.nodes option)
            (pending-nonneg r pg.nodes option nonneg) (r.lt_irrefl r.zero_r))

    -- From an entry that costs no less than the best plan nothing is taken.
    not-Takes :
        (current : F) (option : List ℕ) (best plan : PlanningResult F) (last : ℕ)
        → r.lt current best.cost ≡ false
        → ¬ Takes r method pg current option (some best) plan last
    unfolding improves
    not-Takes current option best plan last late takes =
        let grows = r.add_grows current plan.cost (plan-nonneg option plan takes.evaluated) in
        true-ne-false
          (sym takes.better ∙ r.lt_cotrans (r.add current plan.cost) current best.cost grows late)

    -- The best plan stays, and all that waits costs no less.
    pub record Fixed (best : PlanningResult F) (heap : Heap F) (now : Option (PlanningResult F))
        : Type 0 where
      pub same : now ≡ some best
      pub late : All (λ (e : F × ℕ). r.lt e.0 best.cost ≡ false) heap

    pub round-Fixed :
        (best : PlanningResult F) (current : F) (node : ℕ) (rest : Heap F)
        (now : Option (PlanningResult F)) (s : Heap F × Option (PlanningResult F))
        → IsStack r rest now
        → Fixed best ((current, node) ∷ rest) now
        → round r method pg current node rest now ≡ ok s
        → IsStack r s.0 s.1 × Fixed best s.0 s.1
    unfolding round
    round-Fixed best current node rest now s stack i h =
        elim (Option-cases (get_elem? pg.nodes node)) [
          | inl e ↦ absurd (ok-ne-err s index_error (sym h ∙ rw (e, round)))
          | inr (t, e) ↦ elim (Bool-cases (is_atomic t.class)) [
            | inl atomic ↦
                subst
                  (λ (x : Heap F × Option (PlanningResult F)).
                    IsStack r x.0 x.1 × Fixed best x.0 x.1)
                  (ok-injective (sym (rw (e, round) (rw atomic)) ∙ h))
                  (stack, record { same = i.same; late = i.late.1 })
            | inr composite ↦
                let (options, first, next) =
                  >>=-eq-ok (decompose method pg.nodes pg.resource_pool t)
                    (λ os. consider_all r method pg current os rest now)
                    (sym (rw (e, round) (rw composite)) ∙ h) in
                consider_all_rule r method pg (Fixed best) current options rest now s
                  (All-of _ options λ option m heap b plan last takes old. absurd (
                    not-Takes current option best plan last i.late.0
                      (subst (λ x. Takes r method pg current option x plan last) old.same takes)))
                  stack (record { same = i.same; late = i.late.1 }) next
          ]
        ]
