-- ===== src/Planner/Search/Steps.antt =====
-- What one pass over the decompositions of a node does to the heap and to the best plan.
use qervan_ai.Common.{
  ℕ, ◌≡◌, sym, ◌∙◌, ap, ◌⊎◌, inl, inr, true, false, List, [], ◌∷◌, Option, some, ok, ◌>>=◌, All,
  Bool-cases, >>=-eq-ok, ok-injective, Result-cases, subst, true-ne-false, ok-ne-err,
}
use qervan_ai.Common.Real.{Real}
use qervan_ai.Planner.{except_conflict-ok}
use qervan_ai.Planner.Decompose.{Method}
use qervan_ai.Planner.Evaluate.{PlanningResult, evaluate_option}
use qervan_ai.Planner.Search.{
  PlanningGraph, Heap, heappush, last_of, improves, take_plan, consider, consider_all,
}
use qervan_ai.Planner.Search.Heap.{IsStack, heappush-front, IsStack-push}

module _ {F : Type 0} (r : Real F) (method : Method F) (pg : PlanningGraph F) where
  -- The option is evaluated to a plan that is taken as the best so far.
  pub record Takes (current : F) (option : List ℕ) (best : Option (PlanningResult F))
      (plan : PlanningResult F) (last : ℕ) : Type 0 where
    pub evaluated : evaluate_option r pg.nodes pg.resource_pool option ≡ ok plan
    pub low_risk : r.lt pg.risk_threshold plan.risk_factor ≡ false
    pub better : improves r (r.add current plan.cost) best ≡ true
    pub ends : last_of option ≡ ok last

  abbrev pub taken : F → PlanningResult F → PlanningResult F
  taken current plan = record plan { cost = r.add current plan.cost }

  abbrev pub State' : Type 0
  State' = Heap F × Option (PlanningResult F)

  -- The option is passed over, since it is refused, too risky or no better.
  pub record Skips (current : F) (option : List ℕ) (heap : Heap F)
      (best : Option (PlanningResult F)) (s : State') : Type 0 where
    pub same : s ≡ (heap, best)
    pub why :
        (plan : PlanningResult F)
        → evaluate_option r pg.nodes pg.resource_pool option ≡ ok plan
        → r.lt pg.risk_threshold plan.risk_factor ≡ false
        → improves r (r.add current plan.cost) best ≡ false

  pub record Consider (current : F) (option : List ℕ) (heap : Heap F)
      (best : Option (PlanningResult F)) (s : State') : Type 0 where
    pub plan : PlanningResult F
    pub last : ℕ
    pub takes : Takes current option best plan last
    pub heap_lem : s.0 ≡ (r.add current plan.cost, last) ∷ heap
    pub best_lem : s.1 ≡ some (taken current plan)

  take_plan_lem :
      (current : F) (option : List ℕ) (plan : PlanningResult F) (heap : Heap F)
      (best : Option (PlanningResult F)) (s : State')
      → IsStack r heap best
      → improves r (r.add current plan.cost) best ≡ true
      → take_plan r method pg (r.add current plan.cost) option plan heap ≡ ok s
      → (last : ℕ) × (last_of option ≡ ok last)
        × (s ≡ ((r.add current plan.cost, last) ∷ heap, some (taken current plan)))
  unfolding take_plan
  take_plan_lem current option plan heap best s stack i h =
      let (last, e, next) =
        >>=-eq-ok (last_of option)
          (λ l. heappush r (r.add current plan.cost, l) heap >>= λ heap'.
            ok (heap', some (taken current plan)))
          h in
      (
        last,
        e,
        ok-injective
            (sym (rw (heappush-front r (r.add current plan.cost) last heap best i stack) at next)),
      )

  pub consider_cases :
      (current : F) (option : List ℕ) (heap : Heap F) (best : Option (PlanningResult F))
      (s : State')
      → IsStack r heap best
      → consider r method pg current option heap best ≡ ok s
      → Skips current option heap best s ⊎ Consider current option heap best s
  unfolding consider
  consider_cases current option heap best s stack h =
      elim (Result-cases (evaluate_option r pg.nodes pg.resource_pool option)) [
        | inl (plan, e) ↦ elim (Bool-cases (r.lt pg.risk_threshold plan.risk_factor)) [
          | inl risky ↦ inl (record {
            same = ok-injective (sym h ∙ rw (e, consider) (rw risky));
            why =
                λ p e' low. absurd (true-ne-false (sym risky ∙ rw (ok-injective (sym e ∙ e')) low));
          })
          | inr low ↦ elim (Bool-cases (improves r (r.add current plan.cost) best)) [
            | inl better ↦
                let (last, ends, eq) =
                  take_plan_lem current option plan heap best s stack better
                    (rw (e, consider) (rw low (rw better)) ∙ h) in
                inr (record {
                  plan = plan;
                  last = last;
                  takes = record { evaluated = e; low_risk = low; better = better; ends = ends };
                  heap_lem = ap (λ (x : State'). x.0) eq;
                  best_lem = ap (λ (x : State'). x.1) eq;
                })
            | inr worse ↦ inl (record {
              same = ok-injective (sym h ∙ rw (e, consider) (rw low (rw worse)));
              why = λ p e' _.
                  subst (λ (x : PlanningResult F). improves r (r.add current x.cost) best ≡ false)
                    (ok-injective (sym e ∙ e')) worse;
            })
          ]
        ]
        | inr (x, e) ↦ inl (record {
          same = except_conflict-ok x (heap, best) (sym (rw (e, consider)) ∙ h);
          why = λ p e' _. absurd (ok-ne-err p x (sym e' ∙ e));
        })
      ]

  pub Consider-IsStack :
      (current : F) (option : List ℕ) (heap : Heap F) (best : Option (PlanningResult F))
      (s : State')
      → IsStack r heap best
      → Consider current option heap best s
      → IsStack r s.0 s.1
  Consider-IsStack current option heap best s stack c =
      rw (c.heap_lem, c.best_lem)
        (IsStack-push r (r.add current c.plan.cost) c.last heap best c.plan c.takes.better stack)

  -- An invariant that each taken plan keeps is kept by the whole loop.
  pub consider_all_rule {ℓ} :
      (P : Heap F → Option (PlanningResult F) → Type ℓ) (current : F) (options : List (List ℕ))
      (heap : Heap F) (best : Option (PlanningResult F)) (s : State')
      → All
          (λ option.
            (heap' : Heap F) (best' : Option (PlanningResult F)) (plan : PlanningResult F)
            (last : ℕ)
            → Takes current option best' plan last
            → P heap' best'
            → P ((r.add current plan.cost, last) ∷ heap') (some (taken current plan)))
          options
      → IsStack r heap best
      → P heap best
      → consider_all r method pg current options heap best ≡ ok s
      → IsStack r s.0 s.1 × P s.0 s.1
  unfolding consider_all
  consider_all_rule P current [] heap best s keep stack p h =
      let e = ok-injective h in subst (λ (x : State'). IsStack r x.0 x.1 × P x.0 x.1) e (stack, p)
  consider_all_rule P current (option ∷ options) heap best s (keep, keeps) stack p h =
      let (mid, first, next) =
        >>=-eq-ok (consider r method pg current option heap best)
          (λ (x : State'). consider_all r method pg current options x.0 x.1) h in
      elim (consider_cases current option heap best mid stack first) [
        | inl skip ↦
            let (stack', p') : IsStack r mid.0 mid.1 × P mid.0 mid.1 =
              subst (λ (x : State'). IsStack r x.0 x.1 × P x.0 x.1) (sym skip.same) (stack, p) in
            consider_all_rule P current options mid.0 mid.1 s keeps stack' p' next
        | inr c ↦
            let stack' = Consider-IsStack current option heap best mid stack c in
            let p' : P mid.0 mid.1 =
              rw (c.heap_lem, c.best_lem) (keep heap best c.plan c.last c.takes p) in
            consider_all_rule P current options mid.0 mid.1 s keeps stack' p' next
      ]
