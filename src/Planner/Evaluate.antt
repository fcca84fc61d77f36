-- ===== src/Planner/Evaluate.antt =====
-- PlanningGraph._evaluate_option and PlanningResult.
pub mod Require
pub mod Usage
pub mod Complete
use qervan_ai.Common.{
  ℕ, String, List, [], ◌∷◌, Option, none, some, Result, ok, err, ◌>>=◌, Dict, lookup, lookup_or,
  insert, get_elem?, if◌then◌else◌,
}
use qervan_ai.Common.Int.{ℤ, pos, ◌+ℤ◌, ltb_ℤ}
use qervan_ai.Common.Real.{Real, max_r}
use qervan_ai.Planner.{
  TaskNode, Graph, PlanError, resource_conflict, key_error, index_error, State, pending, other,
}

pub record PlanningResult (F : Type 0) : Type 0 where
  pub sequence : List ℕ
  pub resource_usage : Dict ℤ
  pub cost : F
  pub risk_factor : F

-- The message of the conflict reads `self.resource_pool[res]`, which raises KeyError itself where the
-- pool has no such resource.
unfoldable pub conflict : Dict ℤ → String → PlanError
conflict pool res = elim (lookup pool res) [ none ↦ key_error | some _ ↦ resource_conflict ]

-- for res, amount in node.resources.items()
unfoldable pub require : Dict ℤ → Dict ℤ → Dict ℤ → Result PlanError (Dict ℤ)
unfolding lookup_or insert conflict ◌+ℤ◌
require pool [] required = ok required
require pool ((res, amount) ∷ items) required =
    let total = lookup_or required res (pos 0) +ℤ amount in
    let rest = require pool items (insert required res total) in
    if ltb_ℤ (lookup_or pool res (pos 0)) total then err (conflict pool res) else rest

module _ {F : Type 0} (r : Real F) (g : Graph F) (pool : Dict ℤ) where
  -- The body of the loop over the nodes, on `required_resources`, `total_cost` and `total_risk`.
  unfoldable pub add_node : ℕ → Dict ℤ × F × F → Result PlanError (Dict ℤ × F × F)
  unfolding require
  add_node n (required, cost, risk) = elim (get_elem? g n) [
    | none ↦ err index_error
    | some t ↦ elim t.state [
      | other ↦ ok (required, cost, risk)
      | pending ↦
          (require pool t.resources required >>= λ required'.
          ok (required', r.add cost t.cost, max_r r risk t.risk))
    ]
  ]

  unfoldable pub add_nodes : List ℕ → Dict ℤ × F × F → Result PlanError (Dict ℤ × F × F)
  add_nodes [] acc = ok acc
  add_nodes (n ∷ ns) acc = add_node n acc >>= λ acc'. add_nodes ns acc'

  unfoldable pub evaluate_option : List ℕ → Result PlanError (PlanningResult F)
  unfolding add_node add_nodes
  evaluate_option nodes = add_nodes nodes ([], r.zero_r, r.zero_r) >>= λ (required, cost, risk).
      ok (record { sequence = nodes; resource_usage = required; cost = cost; risk_factor = risk })
