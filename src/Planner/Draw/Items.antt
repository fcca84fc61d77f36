-- ===== src/Planner/Draw/Items.antt =====
-- PlanningGraph.visualize: what is drawn for one node.
use qervan_ai.Common.{
  Bool, String, map, none, get_elem?, Option-cases, ℕ, ◌≡◌, refl, ap, inl, inr, true, false, List,
  [], ◌∷◌, ◌++◌, some,
}
use qervan_ai.Planner.Search.{is_atomic}
use qervan_ai.Planner.{TaskNode, Class, and_node, or_node, atomic_node, Graph}
use qervan_ai.Planner.Draw.{
  Item, dot_node, dot_edge, Shape, rectangle, diamond, shape_of, edges, items_of,
}

-- The drawing of one node, described by its fields: an AND node is a rectangle and any other a diamond, an atomic
-- node is filled, and an edge leads to each of its children, in order.
pub drawn_shape : Class → Shape
drawn_shape and_node = rectangle
drawn_shape or_node = diamond
drawn_shape atomic_node = diamond

pub drawn_filled : Class → Bool
drawn_filled and_node = false
drawn_filled or_node = false
drawn_filled atomic_node = true

pub names_of : {F : Type 0} → Graph F → List ℕ → List String
names_of g [] = []
names_of g (child ∷ children) = elim (get_elem? g child) [
  | none ↦ names_of g children
  | some c ↦ c.id ∷ names_of g children
]

pub node_drawing : {F : Type 0} → Graph F → TaskNode F → List Item
node_drawing g t =
    dot_node t.id (drawn_shape t.class) (drawn_filled t.class)
    ∷ map (dot_edge t.id) (names_of g t.children)

pub drawing_of : {F : Type 0} → Graph F → ℕ → List Item
drawing_of g v = elim (get_elem? g v) [ none ↦ [] | some t ↦ node_drawing g t ]

edges-names_of :
    {F : Type 0} (g : Graph F) (id : String) (children : List ℕ)
    → edges g id children ≡ map (dot_edge id) (names_of g children)
unfolding edges names_of
edges-names_of g id [] = refl
edges-names_of g id (child ∷ children) = elim (Option-cases (get_elem? g child)) [
  | inl missing ↦ rw (missing, edges, names_of) (edges-names_of g id children)
  | inr (c, found) ↦
      rw (found, edges, names_of)
        (ap (λ rest. dot_edge id c.id ∷ rest) (edges-names_of g id children))
]

shape_of-drawn_shape : (c : Class) → shape_of c ≡ drawn_shape c
unfolding drawn_shape
shape_of-drawn_shape and_node = refl
shape_of-drawn_shape or_node = refl
shape_of-drawn_shape atomic_node = refl

is_atomic-drawn_filled : (c : Class) → is_atomic c ≡ drawn_filled c
unfolding is_atomic drawn_filled
is_atomic-drawn_filled and_node = refl
is_atomic-drawn_filled or_node = refl
is_atomic-drawn_filled atomic_node = refl

pub items_of-drawing_of : {F : Type 0} (g : Graph F) (v : ℕ) → items_of g v ≡ drawing_of g v
unfolding items_of drawing_of node_drawing
items_of-drawing_of g v = elim (Option-cases (get_elem? g v)) [
  | inl missing ↦ rw (missing, items_of, drawing_of) refl
  | inr (t, found) ↦
      rw (found, items_of, drawing_of)
        (simp (
          shape_of-drawn_shape t.class,
          is_atomic-drawn_filled t.class,
          edges-names_of g t.id t.children,
        ))
]

-- What is drawn for the nodes of a list, the last of them first.
abbrev pub draw_all : {F : Type 0} → Graph F → List ℕ → List Item
draw_all g [] = []
draw_all g (v ∷ vs) = draw_all g vs ++ drawing_of g v
