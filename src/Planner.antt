-- ===== src/Planner.antt =====
-- orchestration/symbolic/planner.py: the task nodes and what the planner may raise. A node is an
-- object that others refer to, so a graph is a heap: the list of its nodes, and a reference is an
-- index of that list. A float is a value of a type `F` with the operations of `Real`.
pub mod Ancestors
pub mod Dag
pub mod Decompose
pub mod Evaluate
pub mod Search
pub mod Build
pub mod Draw
mod Examples
use qervan_ai.Common.{
  ℕ, String, List, map, Dict, get_or, contains, [], ◌≡◌, true, Result, ok, err, sym, ok-injective,
}
use qervan_ai.Common.Int.{ℤ}

-- The concrete subclasses of `TaskNode`.
pub data Class : Type 0 where
  and_node or_node atomic_node : Class

pub data State : Type 0 where
  pending other : State

pub record TaskNode (F : Type 0) : Type 0 where
  pub class : Class
  pub id : String
  pub preconditions : List ℕ
  pub resources : Dict ℤ
  pub cost : F
  pub risk : F
  pub state : State
  pub children : List ℕ

abbrev pub Graph : Type 0 → Type 0
Graph F = List (TaskNode F)

-- `PlanException`, its two subclasses, and the exceptions of the language that the code can raise.
pub data PlanError : Type 0 where
  plan_exception circular_dependency resource_conflict : PlanError
  attribute_error key_error type_error index_error out_of_fuel : PlanError

-- except ResourceConflictError: continue
unfoldable pub except_conflict {ℓ} : {A : Type ℓ} → PlanError → A → Result PlanError A
except_conflict resource_conflict a = ok a
except_conflict e a = err e

pub except_conflict-ok {ℓ} :
    {A : Type ℓ} (e : PlanError) (a : A) {b : A} → except_conflict e a ≡ ok b → b ≡ a
unfolding except_conflict
except_conflict-ok resource_conflict a h = sym (ok-injective h)
except_conflict-ok _ a h = cc

-- node.preconditions and node._children, for the node at each index.
abbrev pub preconditions_of : {F : Type 0} → Graph F → List (List ℕ)
preconditions_of g = map (λ t. t.preconditions) g

abbrev pub children_of : {F : Type 0} → Graph F → List (List ℕ)
children_of g = map (λ t. t.children) g

-- The links that leave a node.
abbrev pub links : List (List ℕ) → ℕ → List ℕ
links adj r = get_or adj r []

-- One or more links lead from `a` to the index.
pub data Below (adj : List (List ℕ)) (a : ℕ) : ℕ → Type 0 where
  link : {b : ℕ} → contains (links adj a) b ≡ true → Below adj a b
  more : {b c : ℕ} → Below adj a b → contains (links adj b) c ≡ true → Below adj a c
