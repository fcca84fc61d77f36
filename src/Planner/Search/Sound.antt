-- ===== src/Planner/Search/Sound.antt =====
-- A plan that the planner returns meets its constraints.
use qervan_ai.Common.{
  ℕ, ◌≡◌, refl, sym, ◌∙◌, ◌⊎◌, inl, inr, true, false, String, List, [], ◌∷◌, Option, none, some, ok,
  contains, All, All-of, All-at, Memᴰ, Bool-cases, Option-cases, Result-cases, >>=-eq-ok,
  ok-injective, ok-ne-err, get_elem?, subst, eq_of_some, lookup, lookup_or,
}
use qervan_ai.Common.Int.{ℤ, pos, ◌≤ℤ◌}
use qervan_ai.Common.Real.{Real}
use qervan_ai.Planner.{TaskNode, index_error, links, children_of, Below, link, more}
use qervan_ai.Planner.Build.{links-children}
use qervan_ai.Planner.Dag.{validate_dag}
use qervan_ai.Planner.Decompose.{Method, decompose}
use qervan_ai.Planner.Decompose.Children.{Subset, decompose-Subset}
use qervan_ai.Planner.Evaluate.{PlanningResult}
use qervan_ai.Planner.Evaluate.Usage.{evaluate_option-IsPlanOf}
use qervan_ai.Planner.Search.{
  PlanningGraph, Heap, is_atomic, consider_all, round, ao_star_search, generate_plan,
}
use qervan_ai.Planner.Search.Heap.{IsStack}
use qervan_ai.Planner.Search.Steps.{Takes, taken, consider_all_rule}
use qervan_ai.Planner.Search.Ends.{last_of-contains}
use qervan_ai.Planner.Search.Rule.{search_loop_rule}

module _ {F : Type 0} (r : Real F) (method : Method F) (pg : PlanningGraph F) where
  abbrev Reached : ℕ → Type 0
  Reached n = (pg.root ≡ n) ⊎ Below (children_of pg.nodes) pg.root n

  -- The plan is that of a decomposition of a node which the root leads to, at an accumulated cost.
  pub record IsSound (plan : PlanningResult F) : Type 0 where
    pub node : ℕ
    pub task : TaskNode F
    pub reached : Reached node
    pub there : get_elem? pg.nodes node ≡ some task
    pub options : List (List ℕ)
    pub decomposed : decompose method pg.nodes pg.resource_pool task ≡ ok options
    pub listed : Memᴰ plan.sequence options
    pub low_risk : r.lt pg.risk_threshold plan.risk_factor ≡ false
    pub fits :
        (res : String) (a : ℤ)
        → lookup plan.resource_usage res ≡ some a
        → a ≤ℤ lookup_or pg.resource_pool res (pos 0)

  abbrev BestIsSound : Option (PlanningResult F) → Type 0
  BestIsSound none = Unit
  BestIsSound (some plan) = IsSound plan

  record Inv (heap : Heap F) (best : Option (PlanningResult F)) : Type 0 where
    waiting : All (λ (e : F × ℕ). Reached e.1) heap
    sound : BestIsSound best

  child-Reached :
      (n c : ℕ) → Reached n → contains (links (children_of pg.nodes) n) c ≡ true → Reached c
  child-Reached n c (inl e) h =
      inr (link (subst (λ x. contains (links (children_of pg.nodes) x) c ≡ true) (sym e) h))
  child-Reached n c (inr b) h = inr (more b h)

  taken-IsSound :
      (node : ℕ) (t : TaskNode F) (options : List (List ℕ)) (current : F) (option : List ℕ)
      (best : Option (PlanningResult F)) (plan : PlanningResult F) (last : ℕ)
      → Reached node
      → get_elem? pg.nodes node ≡ some t
      → decompose method pg.nodes pg.resource_pool t ≡ ok options
      → Memᴰ option options
      → Takes r method pg current option best plan last
      → IsSound (taken r method pg current plan)
  taken-IsSound node t options current option best plan last reached there decomposed m takes =
      let is_plan =
        evaluate_option-IsPlanOf r pg.nodes pg.resource_pool option plan takes.evaluated in
      record {
        node = node;
        task = t;
        reached = reached;
        there = there;
        options = options;
        decomposed = decomposed;
        listed = subst (λ l. Memᴰ l options) (sym is_plan.sequence) m;
        low_risk = takes.low_risk;
        fits = is_plan.fits;
      }

  round-Inv :
      (current : F) (node : ℕ) (rest : Heap F) (best : Option (PlanningResult F))
      (s : Heap F × Option (PlanningResult F))
      → IsStack r rest best
      → Inv ((current, node) ∷ rest) best
      → round r method pg current node rest best ≡ ok s
      → IsStack r s.0 s.1 × Inv s.0 s.1
  unfolding round
  round-Inv current node rest best s stack i h = elim (Option-cases (get_elem? pg.nodes node)) [
    | inl e ↦ absurd (ok-ne-err s index_error (sym h ∙ rw (e, round)))
    | inr (t, e) ↦ elim (Bool-cases (is_atomic t.class)) [
      | inl atomic ↦
          subst (λ (x : Heap F × Option (PlanningResult F)). IsStack r x.0 x.1 × Inv x.0 x.1)
            (ok-injective (sym (rw (e, round) (rw atomic)) ∙ h))
            (stack, record { waiting = i.waiting.1; sound = i.sound })
      | inr composite ↦
          let (options, first, next) =
            >>=-eq-ok (decompose method pg.nodes pg.resource_pool t)
              (λ os. consider_all r method pg current os rest best)
              (sym (rw (e, round) (rw composite)) ∙ h) in
          let sub : All (Subset (links (children_of pg.nodes) node)) options =
            rw (links-children pg.nodes node t e)
              (decompose-Subset method pg.nodes pg.resource_pool t first) in
          consider_all_rule r method pg Inv current options rest best s
            (All-of _ options λ option m heap b plan last takes old. record {
              waiting = (
                child-Reached node last i.waiting.0 (
                    All-at (Subset (links (children_of pg.nodes) node)) options sub m last
                      (last_of-contains option last takes.ends)),
                old.waiting,
              );
              sound =
                  taken-IsSound node t options current option b plan last i.waiting.0 e first m
                    takes;
            })
            stack (record { waiting = i.waiting.1; sound = i.sound }) next
    ]
  ]

  -- A plan that `generate_plan` returns is the plan of a decomposition of a node which child links
  -- lead to from the root: its risk does not exceed the threshold, and no entry of its resource usage
  -- exceeds what the pool holds.
  pub generate_plan-IsSound :
      (fuel : ℕ) (plan : PlanningResult F)
      → generate_plan r method pg fuel ≡ some (ok plan)
      → IsSound plan
  unfolding generate_plan ao_star_search
  generate_plan-IsSound fuel plan h = elim (Result-cases (validate_dag pg.nodes pg.root)) [
    | inr (e, failed) ↦ absurd (ok-ne-err plan e (eq_of_some (sym h ∙ rw (failed, generate_plan))))
    | inl (u, valid) ↦
        let i =
          search_loop_rule r method pg Inv round-Inv fuel ((r.zero_r, pg.root) ∷ []) none plan refl
            (record { waiting = (inl refl, tt); sound = tt })
            (sym (rw (valid, generate_plan)) ∙ h) in
        i.sound
  ]
