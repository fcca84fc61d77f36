-- ===== src/Planner/Search/Cheapest.antt =====
-- Where no cost is negative the search compares the decompositions of the root, and nothing below.
use qervan_ai.Common.{
  ℕ, zero, suc, ◌≡◌, refl, sym, ◌∙◌, ap, inl, inr, false, List, [], ◌∷◌, Option, none, some, ok,
  All, All-of, All-at, Memᴰ, Bool-cases, Option-cases, Result-cases, >>=-eq-ok, ok-injective,
  ok-ne-err, get_elem?, subst, none-ne-some, eq_of_some, cons-ne-nil,
}
use qervan_ai.Common.Real.{Real}
use qervan_ai.Planner.{TaskNode, index_error}
use qervan_ai.Planner.Dag.{validate_dag}
use qervan_ai.Planner.Decompose.{Method, decompose}
use qervan_ai.Planner.Evaluate.{PlanningResult, evaluate_option}
use qervan_ai.Planner.Evaluate.Usage.{evaluate_option-IsPlanOf}
use qervan_ai.Planner.Search.{
  PlanningGraph, Heap, is_atomic, consider_all, round, search_loop, ao_star_search, generate_plan,
}
use qervan_ai.Planner.Search.Heap.{IsStack}
use qervan_ai.Planner.Search.Steps.{Takes, taken, consider_all_rule}
use qervan_ai.Planner.Search.Rule.{search_loop_rule, IsStack-IsReady}
use qervan_ai.Planner.Search.Beaten.{NoMoreThan, Beaten, consider_all-Beaten}
use qervan_ai.Planner.Search.Fixed.{IsNonnegCost, Fixed, round-Fixed}

module _ {F : Type 0} (r : Real F) (method : Method F) (pg : PlanningGraph F) where
  -- The plan is that of a decomposition of the root, and no other decomposition of the root whose
  -- risk is low enough has a plan that costs less.
  pub record IsCheapest (plan : PlanningResult F) : Type 0 where
    pub root : TaskNode F
    pub there : get_elem? pg.nodes pg.root ≡ some root
    pub options : List (List ℕ)
    pub decomposed : decompose method pg.nodes pg.resource_pool root ≡ ok options
    pub listed : Memᴰ plan.sequence options
    pub evaluated : evaluate_option r pg.nodes pg.resource_pool plan.sequence ≡ ok plan
    pub beats :
        (option : List ℕ) (rival : PlanningResult F)
        → Memᴰ option options
        → evaluate_option r pg.nodes pg.resource_pool option ≡ ok rival
        → r.lt pg.risk_threshold rival.risk_factor ≡ false
        → r.lt rival.cost plan.cost ≡ false

  module _ (nonneg : All (IsNonnegCost r) pg.nodes) where
    -- The best plan of the first round, if there is one.
    abbrev IsFirst : List (List ℕ) → Option (PlanningResult F) → Type 0
    IsFirst options none = Unit
    IsFirst options (some b) =
        Memᴰ b.sequence options × (evaluate_option r pg.nodes pg.resource_pool b.sequence ≡ ok b)

    taken_root : (plan : PlanningResult F) → taken r method pg r.zero_r plan ≡ plan
    taken_root plan = ap (λ c. record plan { cost = c }) (r.zero_add plan.cost)

    taken-IsFirst :
        (options : List (List ℕ)) (option : List ℕ) (best : Option (PlanningResult F))
        (plan : PlanningResult F) (last : ℕ)
        → Memᴰ option options
        → Takes r method pg r.zero_r option best plan last
        → IsFirst options (some (taken r method pg r.zero_r plan))
    taken-IsFirst options option best plan last m takes =
        let e =
          (evaluate_option-IsPlanOf r pg.nodes pg.resource_pool option plan
            takes.evaluated).sequence in
        subst (λ b. IsFirst options (some b)) (sym (taken_root plan))
          (
            subst (λ l. Memᴰ l options) (sym e) m,
            subst (λ l. evaluate_option r pg.nodes pg.resource_pool l ≡ ok plan) (sym e)
                takes.evaluated,
          )

    -- What is returned after the first round is the best plan of that round.
    after_first :
        (fuel : ℕ) (heap : Heap F) (best : Option (PlanningResult F)) (plan : PlanningResult F)
        → IsStack r heap best
        → search_loop r method pg fuel heap best ≡ some (ok plan)
        → best ≡ some plan
    after_first fuel heap none plan stack h = absurd (
        none-ne-some
          (search_loop_rule r method pg (λ hp b. (hp ≡ []) × (none ≡ b))
            (λ current node rest b s _ p _. absurd (cons-ne-nil p.0)) fuel heap none plan
            (rw stack tt) (stack, refl) h).1)
    after_first fuel heap (some b) plan stack h =
        sym
          (search_loop_rule r method pg (Fixed r method pg nonneg b)
            (round-Fixed r method pg nonneg b) fuel heap (some b) plan
            (IsStack-IsReady r method pg heap (some b) stack) (record { same = refl; late = stack })
            h).same

    IsCheapest-first :
        (fuel : ℕ) (t : TaskNode F) (options : List (List ℕ))
        (s : Heap F × Option (PlanningResult F)) (plan : PlanningResult F)
        → get_elem? pg.nodes pg.root ≡ some t
        → decompose method pg.nodes pg.resource_pool t ≡ ok options
        → consider_all r method pg r.zero_r options [] none ≡ ok s
        → search_loop r method pg fuel s.0 s.1 ≡ some (ok plan)
        → IsCheapest plan
    IsCheapest-first fuel t options s plan there decomposed passed h =
        let (stack, first) =
          consider_all_rule r method pg (λ _ b. IsFirst options b) r.zero_r options [] none s
            (All-of _ options
              λ option m heap b p last takes _. taken-IsFirst options option b p last m takes)
            refl tt passed in
        let (_, beaten) = consider_all-Beaten r method pg r.zero_r options [] none s refl passed in
        let best = after_first fuel s.0 s.1 plan stack h in
        let (listed, evaluated) : IsFirst options (some plan) =
          subst (IsFirst options) best first in
        record {
          root = t;
          there = there;
          options = options;
          decomposed = decomposed;
          listed = listed;
          evaluated = evaluated;
          beats = λ option rival m e low.
              let no_more : NoMoreThan r method pg (r.add r.zero_r rival.cost) (some plan) =
                subst (NoMoreThan r method pg (r.add r.zero_r rival.cost)) best
                  (All-at (Beaten r method pg r.zero_r s.1) options beaten m rival e low) in
              rw (sym (r.zero_add rival.cost)) no_more;
        }

    first_round :
        (fuel : ℕ) (plan : PlanningResult F)
        → search_loop r method pg (suc fuel) ((r.zero_r, pg.root) ∷ []) none ≡ some (ok plan)
        → IsCheapest plan
    unfolding search_loop round
    first_round fuel plan h = elim (Result-cases (round r method pg r.zero_r pg.root [] none)) [
      | inr (e, failed) ↦ absurd (ok-ne-err plan e (eq_of_some (sym h ∙ rw (failed, search_loop))))
      | inl (s, done) ↦
          let next = sym (rw (done, search_loop)) ∙ h in
          elim (Option-cases (get_elem? pg.nodes pg.root)) [
            | inl e ↦ absurd (ok-ne-err s index_error (sym done ∙ rw (e, round)))
            | inr (t, e) ↦ elim (Bool-cases (is_atomic t.class)) [
              | inl atomic ↦
                  let same : ◌≡◌ {A = Heap F × Option (PlanningResult F)} ([], none) s =
                    ok-injective (sym (rw (e, round) (rw atomic)) ∙ done) in
                  absurd (
                    none-ne-some (
                      after_first fuel [] none plan refl (
                        subst
                          (λ (x : Heap F × Option (PlanningResult F)).
                            search_loop r method pg fuel x.0 x.1 ≡ some (ok plan))
                          (sym same) next)))
              | inr composite ↦
                  let (options, decomposed, passed) =
                    >>=-eq-ok (decompose method pg.nodes pg.resource_pool t)
                      (λ os. consider_all r method pg r.zero_r os [] none)
                      (sym (rw (e, round) (rw composite)) ∙ done) in
                  IsCheapest-first fuel t options s plan e decomposed passed next
            ]
          ]
    ]

    -- If no node of the graph has a negative cost, a plan that `generate_plan` returns is the plan of one
    -- decomposition of the root itself, at exactly its own cost, and no decomposition of the root
    -- within the risk threshold has a plan that costs less. The tasks below the children of the root
    -- are never planned.
    pub generate_plan-IsCheapest :
        (fuel : ℕ) (plan : PlanningResult F)
        → generate_plan r method pg fuel ≡ some (ok plan)
        → IsCheapest plan
    unfolding generate_plan ao_star_search search_loop
    generate_plan-IsCheapest zero plan h = elim (Result-cases (validate_dag pg.nodes pg.root)) [
      | inr (e, failed) ↦
          absurd (ok-ne-err plan e (eq_of_some (sym h ∙ rw (failed, generate_plan))))
      | inl (u, valid) ↦ absurd (none-ne-some (sym (rw (valid, generate_plan)) ∙ h))
    ]
    generate_plan-IsCheapest (suc fuel) plan h =
        elim (Result-cases (validate_dag pg.nodes pg.root)) [
          | inr (e, failed) ↦
              absurd (ok-ne-err plan e (eq_of_some (sym h ∙ rw (failed, generate_plan))))
          | inl (u, valid) ↦ first_round fuel plan (sym (rw (valid, generate_plan)) ∙ h)
        ]
