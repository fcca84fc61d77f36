-- ===== src/Planner/Search.antt =====
-- PlanningGraph.generate_plan and PlanningGraph._ao_star_search.
pub mod Heap
pub mod Steps
pub mod Ends
pub mod Rule
pub mod Sound
pub mod Beaten
pub mod Fixed
pub mod Cheapest
pub mod Failures
use qervan_ai.Common.{
  ℕ, zero, suc, Bool, true, false, List, [], ◌∷◌, Option, none, some, Result, ok, err, ◌>>=◌, Dict,
  get_elem?, if◌then◌else◌, ◌==◌,
}
use qervan_ai.Common.Int.{ℤ}
use qervan_ai.Common.Real.{Real}
use qervan_ai.Planner.{
  except_conflict, Class, TaskNode, Graph, PlanError, and_node, or_node, atomic_node,
  plan_exception, resource_conflict, type_error, index_error,
}
use qervan_ai.Planner.Dag.{validate_dag}
use qervan_ai.Planner.Decompose.{Method, decompose}
use qervan_ai.Planner.Evaluate.{PlanningResult, evaluate_option}

pub record PlanningGraph (F : Type 0) : Type 0 where
  pub nodes : Graph F
  pub root : ℕ
  pub resource_pool : Dict ℤ
  pub risk_threshold : F

-- The queue of `heapq`, the least entry first. Where two costs are equal Python compares the nodes,
-- which have no order: that raises TypeError unless the node is the same object.
abbrev pub Heap : Type 0 → Type 0
Heap F = List (F × ℕ)

unfoldable pub heappush : {F : Type 0} → Real F → F × ℕ → Heap F → Result PlanError (Heap F)
heappush r e [] = ok (e ∷ [])
heappush r (cost, node) ((c, n) ∷ heap) =
    let later = heappush r (cost, node) heap >>= λ rest. ok ((c, n) ∷ rest) in
    if r.lt cost c
    then ok ((cost, node) ∷ (c, n) ∷ heap)
    else if r.lt c cost
    then later
    else if node == n
    then later
    else err type_error

-- option[-1]
unfoldable pub last_of : List ℕ → Result PlanError ℕ
last_of [] = err index_error
last_of (n ∷ []) = ok n
last_of (n ∷ m ∷ ns) = last_of (m ∷ ns)

unfoldable pub is_atomic : Class → Bool
is_atomic and_node = false
is_atomic or_node = false
is_atomic atomic_node = true

-- not best_plan or total_cost < best_plan.cost
unfoldable pub improves : {F : Type 0} → Real F → F → Option (PlanningResult F) → Bool
improves r total none = true
improves r total (some best) = r.lt total best.cost

module _ {F : Type 0} (r : Real F) (method : Method F) (pg : PlanningGraph F) where
  -- best_plan.cost = total_cost; heapq.heappush(heap, (total_cost, option[-1]))
  unfoldable pub take_plan :
      F → List ℕ → PlanningResult F → Heap F → Result PlanError (Heap F × Option (PlanningResult F))
  take_plan total option plan heap = do
    last ← last_of option
    heap' ← heappush r (total, last) heap
    ok (heap', some (record plan { cost = total }))

  -- The body of the loop over the decompositions.
  unfoldable pub consider :
      F
      → List ℕ
      → Heap F
      → Option (PlanningResult F)
      → Result PlanError (Heap F × Option (PlanningResult F))
  unfolding take_plan except_conflict
  consider current option heap best = elim (evaluate_option r pg.nodes pg.resource_pool option) [
    | err e ↦ except_conflict e (heap, best)
    | ok plan ↦
        if r.lt pg.risk_threshold plan.risk_factor
        then ok (heap, best)
        else if improves r (r.add current plan.cost) best
        then take_plan (r.add current plan.cost) option plan heap
        else ok (heap, best)
  ]

  unfoldable pub consider_all :
      F
      → List (List ℕ)
      → Heap F
      → Option (PlanningResult F)
      → Result PlanError (Heap F × Option (PlanningResult F))
  consider_all current [] heap best = ok (heap, best)
  consider_all current (option ∷ options) heap best =
      consider current option heap best >>= λ (heap', best').
      consider_all current options heap' best'

  -- One round of the `while` loop, after (current_cost, current_node) left the heap.
  unfoldable pub round :
      F
      → ℕ
      → Heap F
      → Option (PlanningResult F)
      → Result PlanError (Heap F × Option (PlanningResult F))
  unfolding is_atomic
  round current node heap best = elim (get_elem? pg.nodes node) [
    | none ↦ err index_error
    | some t ↦
        if is_atomic t.class
        then ok (heap, best)
        else (decompose method pg.nodes pg.resource_pool t >>= λ options.
            consider_all current options heap best)
  ]

  unfoldable pub best_or_raise : Option (PlanningResult F) → Result PlanError (PlanningResult F)
  best_or_raise none = err plan_exception
  best_or_raise (some best) = ok best

  -- The `while` loop; `none` means that the fuel ran out.
  unfoldable pub search_loop :
      ℕ → Heap F → Option (PlanningResult F) → Option (Result PlanError (PlanningResult F))
  search_loop fuel [] best = some (best_or_raise best)
  search_loop zero (e ∷ heap) best = none
  search_loop (suc fuel) ((current, node) ∷ heap) best = elim (round current node heap best) [
    | err e ↦ some (err e)
    | ok s ↦ search_loop fuel s.0 s.1
  ]

  unfoldable pub ao_star_search : ℕ → Option (Result PlanError (PlanningResult F))
  ao_star_search fuel = search_loop fuel ((r.zero_r, pg.root) ∷ []) none

  unfoldable pub generate_plan : ℕ → Option (Result PlanError (PlanningResult F))
  unfolding ao_star_search
  generate_plan fuel = elim (validate_dag pg.nodes pg.root) [
    | err e ↦ some (err e)
    | ok _ ↦ ao_star_search fuel
  ]
