-- ===== src/Planner/Draw.antt =====
-- PlanningGraph.visualize: the drawing as the list of what is given to graphviz, in order. A stack's top is
-- the head of its list.
pub mod Items
pub mod Complete
mod Examples
use qervan_ai.Common.{
  ℕ, zero, suc, Bool, true, false, String, List, [], ◌∷◌, ◌++◌, Option, none, some, get_elem?,
  contains, if◌then◌else◌,
}
use qervan_ai.Planner.{TaskNode, Graph, Class, and_node, children_of, links}
use qervan_ai.Planner.Dag.{count_links}
use qervan_ai.Planner.Search.{is_atomic}

pub data Shape : Type 0 where
  rectangle diamond : Shape

-- dot.node and dot.edge; an atomic node is filled, and light grey.
pub data Item : Type 0 where
  dot_node : (id : String) → Shape → (filled : Bool) → Item
  dot_edge : (from to : String) → Item

abbrev pub shape_of : Class → Shape
shape_of and_node = rectangle
shape_of _ = diamond

-- for child in node._children: dot.edge(node.id, child.id)
unfoldable pub edges : {F : Type 0} → Graph F → String → List ℕ → List Item
edges g id [] = []
edges g id (child ∷ children) =
    let rest = edges g id children in
    elim (get_elem? g child) [ none ↦ rest | some c ↦ dot_edge id c.id ∷ rest ]

-- What one round draws. A reference leads to a node of the heap.
unfoldable pub items_of : {F : Type 0} → Graph F → ℕ → List Item
unfolding edges
items_of g v = elim (get_elem? g v) [
  | none ↦ []
  | some t ↦ dot_node t.id (shape_of t.class) (is_atomic t.class) ∷ edges g t.id t.children
]

-- for child in node._children: stack.append(child)
unfoldable pub push_all : List ℕ → List ℕ → List ℕ
push_all [] stack = stack
push_all (child ∷ children) stack = push_all children (child ∷ stack)

-- The `while` loop, on the fuel, the stack, `visited` and the drawing so far.
unfoldable pub draw_loop :
    {F : Type 0} → Graph F → ℕ → List ℕ → List ℕ → List Item → Option (List Item)
unfolding push_all items_of
draw_loop g fuel [] visited dot = some dot
draw_loop g zero (node ∷ stack) visited dot = none
draw_loop g (suc fuel) (node ∷ stack) visited dot = elim (contains visited node) [
  | true ↦ draw_loop g fuel stack visited dot
  | false ↦
      draw_loop g fuel (push_all (links (children_of g) node) stack) (node ∷ visited)
        (dot ++ items_of g node)
]

unfoldable pub visualize : {F : Type 0} → Graph F → ℕ → Option (List Item)
unfolding draw_loop count_links
visualize g root = draw_loop g (suc (count_links (children_of g))) (root ∷ []) [] []
