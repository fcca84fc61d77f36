-- ===== src/Planner/Examples.antt =====
-- The task hierarchy of the example at the end of orchestration/symbolic/planner.py, risks in tenths,
-- and the theorems at it.
use qervan_ai.Common.{
  ℕ, ◌≡◌, ◌≢◌, refl, ◌↔◌, ◌⊎◌, inl, true, String, List, [], ◌∷◌, none, some, Result, ok, err, Dict,
  lookup_or, lookup, insert, contains, if◌then◌else◌, All, arith,
}
use qervan_ai.Common.Int.{ℤ, pos, ltb_ℤ, ◌≤ℤ◌, ◌+ℤ◌}
use qervan_ai.Common.Real.{whole}
use qervan_ai.Planner.{
  TaskNode, Graph, Class, and_node, or_node, atomic_node, pending, PlanError, resource_conflict,
  circular_dependency, preconditions_of, except_conflict, Below,
}
use qervan_ai.Planner.Ancestors.{add_child, get_ancestors}
use qervan_ai.Planner.Dag.{validate_dag}
use qervan_ai.Planner.Decompose.{decompose, validate_child}
use qervan_ai.Planner.Evaluate.{
  PlanningResult, evaluate_option, add_node, add_nodes, require, conflict,
}
use qervan_ai.Planner.Ancestors.Correct.{get_ancestors_correct}
use qervan_ai.Planner.Build.{IsBare, add_child_accepts_cycle}
use qervan_ai.Planner.Dag.Cycles.{HasCycle, validate_dag_decides}
use qervan_ai.Planner.Decompose.Admitted.{
  IsChecked, alternatives_of, admitted, decompose-eq_alternatives,
}
use qervan_ai.Planner.Evaluate.Usage.{pending_nodes, demand, IsPlanOf, evaluate_option-IsPlanOf}
use qervan_ai.Planner.Evaluate.Complete.{IsNode, evaluate_option_iff}
use qervan_ai.Planner.Search.Fixed.{IsNonnegCost}
use qervan_ai.Planner.Search.Cheapest.{IsCheapest, generate_plan-IsCheapest}
use qervan_ai.Planner.Search.Ends.{generate_plan_ends}
use qervan_ai.Planner.Search.Failures.{generate_plan_unimplemented}
use qervan_ai.Planner.Search.Sound.{IsSound, generate_plan-IsSound}
use qervan_ai.Planner.Search.{
  PlanningGraph, generate_plan, search_loop, round, consider_all, consider, take_plan, heappush,
  last_of, is_atomic, improves, best_or_raise,
}

abbrev task : Class → String → Dict ℤ → ℕ → ℕ → List ℕ → TaskNode ℕ
task class id resources cost risk children = record {
  class = class;
  id = id;
  preconditions = [];
  resources = resources;
  cost = cost;
  risk = risk;
  state = pending;
  children = children;
}

abbrev sensor : TaskNode ℕ
sensor = task atomic_node "SensorData" (("cpu", pos 1) ∷ ("memory", pos 2048) ∷ []) 50 2 []

abbrev api : TaskNode ℕ
api = task atomic_node "APIIngest" (("cpu", pos 2) ∷ ("memory", pos 1024) ∷ []) 30 4 []

abbrev mission : Graph ℕ
mission =
    task and_node "PlanMission" (("cpu", pos 2) ∷ []) 0 0 (1 ∷ 4 ∷ [])
    ∷ task or_node "AcquireData" (("memory", pos 4096) ∷ []) 0 0 (2 ∷ 3 ∷ [])
    ∷ sensor
    ∷ api
    ∷ task and_node "ProcessData" (("cpu", pos 4) ∷ ("gpu", pos 1) ∷ []) 0 0 (5 ∷ 6 ∷ [])
    ∷ task atomic_node "CleanData" (("memory", pos 512) ∷ []) 10 0 []
    ∷ task atomic_node "Transform" (("cpu", pos 2) ∷ []) 20 0 []
    ∷ []

abbrev resources : Dict ℤ
resources = ("cpu", pos 8) ∷ ("memory", pos 16384) ∷ ("gpu", pos 1) ∷ ("quantum_secure", pos 1) ∷ []

-- A method that a subclass may supply: the pool holds each amount.
abbrev holds : Dict ℤ → Dict ℤ → Result PlanError (Unit {0})
holds pool [] = ok tt
holds pool ((k, a) ∷ items) =
    let rest = holds pool items in
    if ltb_ℤ (lookup_or pool k (pos 0)) a then err resource_conflict else rest

abbrev validate : TaskNode ℕ → Dict ℤ → Result PlanError (Unit {0})
validate t pool = holds pool t.resources

abbrev planner : ℕ → PlanningGraph ℕ
planner root = record {
  nodes = mission;
  root = root;
  resource_pool = resources;
  risk_threshold = 7;
}

program : Unit {0}
unfolding generate_plan search_loop round consider_all consider take_plan heappush last_of is_atomic
    improves best_or_raise except_conflict validate_dag decompose evaluate_option add_node add_nodes
    require lookup_or insert lookup conflict ◌+ℤ◌
program = tt

-- The plan for the whole mission stops at the children of the root.
mission_plan :
    generate_plan whole (some validate) (planner 0) 5
    ≡ some (
        ok (record {
          sequence = 1 ∷ 4 ∷ [];
          resource_usage = ("memory", pos 4096) ∷ ("cpu", pos 4) ∷ ("gpu", pos 1) ∷ [];
          cost = 0;
          risk_factor = 0;
        }))
unfolding program
mission_plan = refl

acquire_plan : PlanningResult ℕ
acquire_plan = record {
  sequence = 3 ∷ [];
  resource_usage = ("cpu", pos 2) ∷ ("memory", pos 1024) ∷ [];
  cost = 30;
  risk_factor = 4;
}

generate_plan-acquire : generate_plan whole (some validate) (planner 1) 5 ≡ some (ok acquire_plan)
unfolding program acquire_plan
generate_plan-acquire = refl

mission-nonneg : All (IsNonnegCost whole) mission
mission-nonneg = (refl, (refl, (refl, (refl, (refl, (refl, (refl, tt)))))))

generate_plan-IsCheapest_example : IsCheapest whole (some validate) (planner 1) acquire_plan
generate_plan-IsCheapest_example =
    generate_plan-IsCheapest whole (some validate) (planner 1) mission-nonneg 5 acquire_plan
      generate_plan-acquire

generate_plan-IsSound_example : IsSound whole (some validate) (planner 1) acquire_plan
generate_plan-IsSound_example =
    generate_plan-IsSound whole (some validate) (planner 1) 5 acquire_plan generate_plan-acquire

generate_plan_ends_example :
    (fuel : ℕ) × (result : Result PlanError (PlanningResult ℕ)) × (generate_plan whole
        (some validate)
        (planner 0)
        fuel
      ≡ some result)
generate_plan_ends_example = generate_plan_ends whole (some validate) (planner 0)

validate_dag_decides_example :
    ((validate_dag mission 0 ≡ ok tt) × (¬ HasCycle mission 0))
    ⊎ ((validate_dag mission 0 ≡ err circular_dependency) × HasCycle mission 0)
validate_dag_decides_example = validate_dag_decides mission 0

validate_dag-mission : validate_dag mission 0 ≡ ok tt
unfolding validate_dag
validate_dag-mission = refl

no_negative : (res : String) → pos 0 ≤ℤ lookup_or resources res (pos 0)
unfolding lookup_or
no_negative res = ground arith

api-IsNode : All (IsNode whole mission resources) (3 ∷ 2 ∷ [])
api-IsNode = ((api, refl, omega arith), ((sensor, refl, omega arith), tt))

evaluate_option_iff_example :
    ((plan : PlanningResult ℕ) × (evaluate_option whole mission resources (3 ∷ 2 ∷ []) ≡ ok plan))
    ↔ ((res : String)
        → demand (pending_nodes mission (3 ∷ 2 ∷ [])) res ≤ℤ lookup_or resources res (pos 0))
evaluate_option_iff_example =
    evaluate_option_iff whole mission resources (3 ∷ 2 ∷ []) api-IsNode no_negative

evaluate_option-acquire : evaluate_option whole mission resources (3 ∷ []) ≡ ok acquire_plan
unfolding program acquire_plan
evaluate_option-acquire = refl

evaluate_option-IsPlanOf_example : IsPlanOf whole mission resources (3 ∷ []) acquire_plan
evaluate_option-IsPlanOf_example =
    evaluate_option-IsPlanOf whole mission resources (3 ∷ []) acquire_plan evaluate_option-acquire

generate_plan_unimplemented_example :
    generate_plan whole none (planner 0) 5 ≢ some (ok acquire_plan)
generate_plan_unimplemented_example = generate_plan_unimplemented whole (planner 0) 5 acquire_plan

abbrev cpu_only : PlanningGraph ℕ
cpu_only = record {
  nodes = mission;
  root = 4;
  resource_pool = ("cpu", pos 8) ∷ [];
  risk_threshold = 7;
}

abbrev accept_all : TaskNode ℕ → Dict ℤ → Result PlanError (Unit {0})
accept_all t pool = ok tt

validate_dag-process : validate_dag mission 4 ≡ ok tt
unfolding validate_dag
validate_dag-process = refl

process : TaskNode ℕ
process = task and_node "ProcessData" (("cpu", pos 4) ∷ ("gpu", pos 1) ∷ []) 0 0 (5 ∷ 6 ∷ [])

decompose-process :
    decompose (some accept_all) mission (("cpu", pos 8) ∷ []) process ≡ ok ((5 ∷ 6 ∷ []) ∷ [])
unfolding decompose process
decompose-process = refl

get_ancestors_correct_example :
    (found : List ℕ) × (get_ancestors mission 0 ≡ some found)
    × ((v : ℕ) → (contains found v ≡ true) ↔ Below (preconditions_of mission) 0 v)
get_ancestors_correct_example = get_ancestors_correct mission 0

abbrev pair : Graph ℕ
pair = sensor ∷ api ∷ []

pair-IsBare : IsBare pair
pair-IsBare n = ground arith

add_child_accepts_cycle_example :
    (g1 g2 : Graph ℕ) × (add_child pair 0 1 ≡ ok g1)
    × (add_child g1 1 0 ≡ ok g2)
    × (validate_dag g2 0 ≡ err circular_dependency)
add_child_accepts_cycle_example = add_child_accepts_cycle pair 0 1 sensor api pair-IsBare refl refl

abbrev acquire : TaskNode ℕ
acquire = task or_node "AcquireData" (("memory", pos 4096) ∷ []) 0 0 (2 ∷ 3 ∷ [])

composite : or_node ≢ atomic_node
composite e = cc

children-IsChecked : All (IsChecked (some validate) mission resources) (2 ∷ 3 ∷ [])
unfolding validate_child lookup_or
children-IsChecked = (inl refl, (inl refl, tt))

decompose-eq_alternatives_example :
    decompose (some validate) mission resources acquire
    ≡ ok (
        alternatives_of
          (some validate)
          mission
          resources
          or_node
          (admitted (some validate) mission resources (2 ∷ 3 ∷ [])))
decompose-eq_alternatives_example =
    decompose-eq_alternatives (some validate) mission resources acquire composite children-IsChecked
