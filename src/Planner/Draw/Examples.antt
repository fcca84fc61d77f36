-- ===== src/Planner/Draw/Examples.antt =====
-- A task that is below itself, drawn.
use qervan_ai.Common.{ℕ, true, false, String, List, [], ◌∷◌, some, ◌≡◌, refl, ◌↔◌, ◌⊎◌, contains}
use qervan_ai.Planner.{
  TaskNode, Graph, Class, and_node, or_node, atomic_node, pending, children_of, Below,
}
use qervan_ai.Planner.Dag.{count_links}
use qervan_ai.Planner.Search.{is_atomic}
use qervan_ai.Planner.Draw.{
  Item, dot_node, dot_edge, rectangle, diamond, edges, items_of, push_all, draw_loop, visualize,
}
use qervan_ai.Planner.Draw.Items.{draw_all}
use qervan_ai.Planner.Draw.Complete.{Distinct, visualize_complete}

abbrev task : Class → String → List ℕ → TaskNode ℕ
task class id children = record {
  class = class;
  id = id;
  preconditions = [];
  resources = [];
  cost = 0;
  risk = 0;
  state = pending;
  children = children;
}

-- The third node is below no other.
abbrev looped : Graph ℕ
looped = task and_node "a" (1 ∷ 0 ∷ []) ∷ task atomic_node "b" [] ∷ task or_node "c" (0 ∷ []) ∷ []

abbrev drawing : List Item
drawing =
    dot_node "a" rectangle false
    ∷ dot_edge "a" "b"
    ∷ dot_edge "a" "a"
    ∷ dot_node "b" diamond true
    ∷ []

loop_drawn : visualize looped 0 ≡ some drawing
unfolding visualize draw_loop push_all items_of edges count_links is_atomic
loop_drawn = refl

visualize_complete_example :
    (vs : List ℕ) × (visualize looped 0 ≡ some (draw_all looped vs))
    × Distinct vs
    × ((v : ℕ) → (contains vs v ≡ true) ↔ ((0 ≡ v) ⊎ Below (children_of looped) 0 v))
visualize_complete_example = visualize_complete looped 0
