-- ===== src/Planner/Ancestors.antt =====
-- TaskNode.add_child and TaskNode.get_ancestors. A stack's top is the head of its list, and a set
-- is the list of its members.
pub mod Correct
use qervan_ai.Common.{
  ℕ, zero, suc, ◌+◌, Bool, true, false, List, [], ◌∷◌, ◌++◌, Option, none, some, Result, ok, err,
  length, get_elem?, set, contains, if◌then◌else◌,
}
use qervan_ai.Planner.{
  TaskNode, Graph, PlanError, circular_dependency, index_error, out_of_fuel, preconditions_of,
  links,
}

-- `ancestors` and `stack` in the body of `get_ancestors`.
pub record Walk : Type 0 where
  pub ancestors : List ℕ
  pub stack : List ℕ

visit : ℕ → Walk → Walk
visit parent w =
    if contains w.ancestors parent
    then w
    else record { ancestors = parent ∷ w.ancestors; stack = parent ∷ w.stack }

-- for parent in current.preconditions
visit_all : List ℕ → Walk → Walk
visit_all [] w = w
visit_all (parent ∷ parents) w = visit_all parents (visit parent w)

-- The `while` loop; `none` means that the fuel ran out.
walk_loop : List (List ℕ) → ℕ → Walk → Option (List ℕ)
walk_loop adj zero w = elim w.stack [ [] ↦ some w.ancestors | _ ∷ _ ↦ none ]
walk_loop adj (suc fuel) w = elim w.stack [
  | [] ↦ some w.ancestors
  | current ∷ rest ↦ walk_loop adj fuel (visit_all (links adj current) (record w { stack = rest }))
]

-- All links, as one list.
abbrev pub all_links : List (List ℕ) → List ℕ
all_links [] = []
all_links (l ∷ adj) = l ++ all_links adj

unfoldable pub get_ancestors : {F : Type 0} → Graph F → ℕ → Option (List ℕ)
unfolding walk_loop visit_all visit
get_ancestors g self =
    let adj = preconditions_of g in
    walk_loop adj (suc (length (all_links adj))) (record { ancestors = []; stack = self ∷ [] })

-- self._children.append(node)
unfoldable pub append_child : {F : Type 0} → Graph F → ℕ → ℕ → Result PlanError (Graph F)
append_child g self node = elim (get_elem? g self) [
  | none ↦ err index_error
  | some t ↦ ok (set g self (record t { children = t.children ++ node ∷ [] }))
]

unfoldable pub add_child : {F : Type 0} → Graph F → ℕ → ℕ → Result PlanError (Graph F)
unfolding get_ancestors append_child
add_child g self node = elim (get_ancestors g self) [
  | none ↦ err out_of_fuel
  | some ancestors ↦
      if contains ancestors node then err circular_dependency else append_child g self node
]
