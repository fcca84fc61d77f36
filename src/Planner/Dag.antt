-- ===== src/Planner/Dag.antt =====
-- TaskNode.validate_dag: an iterative depth-first search over the child links. Each stack entry
-- carries the set of the nodes on the way to it.
pub mod Ends
pub mod Acyclic
pub mod Cycles
use qervan_ai.Common.{
  ℕ, zero, suc, ◌+◌, List, [], ◌∷◌, Result, ok, err, length, contains, if◌then◌else◌,
}
use qervan_ai.Planner.{Graph, PlanError, circular_dependency, out_of_fuel, children_of, links}

pub record Entry : Type 0 where
  pub node : ℕ
  pub path : List ℕ

-- for child in node._children: stack.append((child, new_path))
unfoldable pub push_children : List ℕ → List ℕ → List Entry → List Entry
push_children [] path stack = stack
push_children (c ∷ cs) path stack = push_children cs path (record { node = c; path = path } ∷ stack)

-- The `while` loop, on the links, the fuel, the stack and `visited`.
unfoldable pub dag_loop : List (List ℕ) → ℕ → List Entry → List ℕ → Result PlanError (Unit {0})
unfolding push_children
dag_loop adj fuel [] visited = ok tt
dag_loop adj zero (e ∷ stack) visited = err out_of_fuel
dag_loop adj (suc fuel) (e ∷ stack) visited =
    let expand =
      dag_loop adj fuel (push_children (links adj e.node) (e.node ∷ e.path) stack)
        (e.node ∷ visited) in
    let skip = dag_loop adj fuel stack visited in
    if contains e.path e.node
    then err circular_dependency
    else if contains visited e.node
    then skip
    else expand

-- One round for the root, and one for each link of a node that is expanded.
unfoldable pub count_links : List (List ℕ) → ℕ
count_links [] = 0
count_links (l ∷ adj) = length l + count_links adj

unfoldable pub validate_dag : {F : Type 0} → Graph F → ℕ → Result PlanError (Unit {0})
unfolding dag_loop count_links
validate_dag g self =
    let adj = children_of g in
    dag_loop adj (suc (count_links adj)) (record { node = self; path = [] } ∷ []) []
