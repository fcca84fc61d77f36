-- ===== src/Planner/Search/Failures.antt =====
-- Two ways in which the planner fails with an exception that it does not mean to raise.
use qervan_ai.Common.{
  ℕ, zero, suc, ◌≡◌, ◌≢◌, sym, ◌∙◌, inl, inr, true, false, String, List, [], ◌∷◌, Option, none,
  some, ok, err, Dict, lookup, Bool-cases, Option-cases, Result-cases, >>=-eq-ok, ok-injective,
  ok-ne-err, get_elem?, subst, none-ne-some, eq_of_some,
}
use qervan_ai.Common.Int.{ℤ, pos, ltb_ℤ}
use qervan_ai.Common.Real.{Real}
use qervan_ai.Planner.{TaskNode, key_error, index_error, pending}
use qervan_ai.Planner.Dag.{validate_dag}
use qervan_ai.Planner.Decompose.{Method, decompose}
use qervan_ai.Planner.Decompose.Admitted.{decompose_unimplemented}
use qervan_ai.Planner.Evaluate.{PlanningResult}
use qervan_ai.Planner.Evaluate.Complete.{evaluate_option_unlisted}
use qervan_ai.Planner.Search.{
  PlanningGraph, Heap, is_atomic, consider, consider_all, round, search_loop, ao_star_search,
  generate_plan, best_or_raise,
}

module _ {F : Type 0} (r : Real F) (pg : PlanningGraph F) where
  -- Without the method no round takes a plan.
  round_unimplemented :
      (current : F) (node : ℕ) (s : Heap F × Option (PlanningResult F))
      → round r none pg current node [] none ≡ ok s
      → s ≡ ([], none)
  unfolding round consider_all
  round_unimplemented current node s h = elim (Option-cases (get_elem? pg.nodes node)) [
    | inl e ↦ absurd (ok-ne-err s index_error (sym h ∙ rw (e, round)))
    | inr (t, e) ↦ elim (Bool-cases (is_atomic t.class)) [
      | inl atomic ↦ ok-injective (sym h ∙ rw (e, round) (rw atomic))
      | inr composite ↦
          let (options, decomposed, passed) =
            >>=-eq-ok (decompose none pg.nodes pg.resource_pool t)
              (λ os. consider_all r none pg current os [] none)
              (sym (rw (e, round) (rw composite)) ∙ h) in
          let empty = decompose_unimplemented pg.nodes pg.resource_pool t options decomposed in
          ok-injective
            (sym (subst (λ os. consider_all r none pg current os [] none ≡ ok s) empty passed))
    ]
  ]

  search_unimplemented :
      (fuel : ℕ) (plan : PlanningResult F)
      → ¬ (search_loop r none pg fuel ((r.zero_r, pg.root) ∷ []) none ≡ some (ok plan))
  unfolding search_loop best_or_raise
  search_unimplemented zero plan h = none-ne-some h
  search_unimplemented (suc fuel) plan h =
      elim (Result-cases (round r none pg r.zero_r pg.root [] none)) [
        | inr (e, failed) ↦ ok-ne-err plan e (eq_of_some (sym h ∙ rw (failed, search_loop)))
        | inl (s, done) ↦
            let next = sym (rw (done, search_loop)) ∙ h in
            let stop =
              subst
                (λ (x : Heap F × Option (PlanningResult F)).
                  search_loop r none pg fuel x.0 x.1 ≡ some (ok plan))
                (round_unimplemented r.zero_r pg.root s done) next in
            never fuel stop
      ]
    where
      never : (f : ℕ) → ¬ (search_loop r none pg f [] none ≡ some (ok plan))
      never zero e = cc (eq_of_some e)
      never (suc f) e = cc (eq_of_some e)

  -- No class of the module defines `validate_resources`, and with no such method the planner returns no plan on any
  -- graph, whatever the fuel.
  pub generate_plan_unimplemented :
      (fuel : ℕ) (plan : PlanningResult F) → generate_plan r none pg fuel ≢ some (ok plan)
  unfolding generate_plan ao_star_search
  generate_plan_unimplemented fuel plan h = elim (Result-cases (validate_dag pg.nodes pg.root)) [
    | inr (e, failed) ↦ ok-ne-err plan e (eq_of_some (sym h ∙ rw (failed, generate_plan)))
    | inl (u, valid) ↦ search_unimplemented fuel plan (sym (rw (valid, generate_plan)) ∙ h)
  ]

module _ {F : Type 0} (r : Real F) (method : Method F) (pg : PlanningGraph F) where
  -- If the first decomposition of a validated root begins with a pending task whose first requirement is some of a resource that
  -- the pool does not list, the planner fails with KeyError, though other decompositions may be
  -- feasible: the handler of the loop catches ResourceConflictError only.
  pub generate_plan_unlisted :
      (fuel : ℕ) (root t : TaskNode F) (n : ℕ) (ns : List ℕ) (options : List (List ℕ)) (k : String)
      (amount : ℤ) (items : Dict ℤ)
      → validate_dag pg.nodes pg.root ≡ ok tt
      → get_elem? pg.nodes pg.root ≡ some root
      → is_atomic root.class ≡ false
      → decompose method pg.nodes pg.resource_pool root ≡ ok ((n ∷ ns) ∷ options)
      → get_elem? pg.nodes n ≡ some t
      → t.state ≡ pending
      → t.resources ≡ (k, amount) ∷ items
      → ltb_ℤ (pos 0) amount ≡ true
      → lookup pg.resource_pool k ≡ none
      → generate_plan r method pg (suc fuel) ≡ some (err key_error)
  unfolding generate_plan ao_star_search search_loop round consider_all consider
  generate_plan_unlisted fuel root t n ns options k amount items valid there composite decomposed e
        p rs some_of missing =
      let fails =
        evaluate_option_unlisted r pg.nodes pg.resource_pool n ns t k amount items e p rs some_of
          missing in
      let first : round r method pg r.zero_r pg.root [] none ≡ err key_error =
        rw (there, round) (rw composite (rw decomposed (rw (fails, consider)))) in
      rw (valid, generate_plan) (rw (first, search_loop))
