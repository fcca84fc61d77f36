-- ===== src/Planner/Dag/Ends.antt =====
-- The fuel of `validate_dag` is enough: a node is expanded once.
use qervan_ai.Common.{
  ℕ, zero, suc, ◌+◌, ◌≤◌, ◌<◌, ◌≡◌, ◌≢◌, refl, false, List, [], ◌∷◌, ok, err, arith, length,
  contains, if◌then◌else◌, ==_iff, ◌⊎◌, inl,
}
use qervan_ai.Planner.{circular_dependency, out_of_fuel, links, Graph, children_of}
use qervan_ai.Planner.Dag.{Entry, push_children, dag_loop, count_links, validate_dag}

-- The links of the nodes that are not visited, where the list begins at node `k`.
pub unvisited : List ℕ → ℕ → List (List ℕ) → ℕ
unvisited visited k [] = 0
unvisited visited k (l ∷ adj) =
    (if contains visited k then 0 else length l) + unvisited visited (suc k) adj

pub unvisited-nil : (k : ℕ) (adj : List (List ℕ)) → unvisited [] k adj ≡ count_links adj
unfolding unvisited count_links
unvisited-nil k [] = refl
unvisited-nil k (l ∷ adj) = omega (arith, unvisited-nil (suc k) adj)

unvisited-below :
    (visited : List ℕ) (v k : ℕ) (adj : List (List ℕ))
    → v < k
    → unvisited (v ∷ visited) k adj ≡ unvisited visited k adj
unfolding unvisited
unvisited-below visited v k [] h = refl
unvisited-below visited v k (l ∷ adj) h =
    ground (arith, unvisited-below visited v (suc k) adj, ==_iff v k)

-- Node `k + i` of the list is marked.
pub unvisited-mark :
    (visited : List ℕ) (k i : ℕ) (adj : List (List ℕ))
    → contains visited (k + i) ≡ false
    → length (links adj i) + unvisited ((k + i) ∷ visited) k adj ≡ unvisited visited k adj
unfolding unvisited
unvisited-mark visited k i [] h = omega arith
unvisited-mark visited k zero (l ∷ adj) h =
    ground (arith, unvisited-below visited (k + zero) (suc k) adj, ==_iff (k + zero) k)
unvisited-mark visited k (suc i) (l ∷ adj) h =
    ground (arith, unvisited-mark visited (suc k) i adj, ==_iff (k + suc i) k)

length-push_children :
    (cs path : List ℕ) (stack : List Entry)
    → length (push_children cs path stack) ≡ length cs + length stack
unfolding push_children
length-push_children [] path stack = omega arith
length-push_children (c ∷ cs) path stack =
    omega (arith, length-push_children cs path (record { node = c; path = path } ∷ stack))

dag_loop_ends :
    (adj : List (List ℕ)) (fuel : ℕ) (stack : List Entry) (visited : List ℕ)
    → length stack + unvisited visited 0 adj ≤ fuel
    → dag_loop adj fuel stack visited ≢ err out_of_fuel
unfolding dag_loop
dag_loop_ends adj zero [] visited h = λ e. cc
dag_loop_ends adj (suc fuel) [] visited h = λ e. cc
dag_loop_ends adj zero (e ∷ stack) visited h = absurd (omega arith)
dag_loop_ends adj (suc fuel) (e ∷ stack) visited h =
    let next = push_children (links adj e.node) (e.node ∷ e.path) stack in
    ground (
      arith,
      dag_loop_ends adj fuel stack visited,
      dag_loop_ends adj fuel next (e.node ∷ visited),
      length-push_children (links adj e.node) (e.node ∷ e.path) stack,
      unvisited-mark visited 0 e.node adj,
    )

dag_loop_outcomes :
    (adj : List (List ℕ)) (fuel : ℕ) (stack : List Entry) (visited : List ℕ)
    → dag_loop adj fuel stack visited ≢ err out_of_fuel
    → (dag_loop adj fuel stack visited ≡ ok tt)
      ⊎ (dag_loop adj fuel stack visited ≡ err circular_dependency)
unfolding dag_loop
dag_loop_outcomes adj zero [] visited n = inl refl
dag_loop_outcomes adj (suc fuel) [] visited n = inl refl
dag_loop_outcomes adj zero (e ∷ stack) visited n = absurd (n refl)
dag_loop_outcomes adj (suc fuel) (e ∷ stack) visited n =
    let next = push_children (links adj e.node) (e.node ∷ e.path) stack in
    ground (
      arith,
      dag_loop_outcomes adj fuel stack visited,
      dag_loop_outcomes adj fuel next (e.node ∷ visited),
    )

pub validate_dag_outcomes :
    {F : Type 0} (g : Graph F) (self : ℕ)
    → (validate_dag g self ≡ ok tt) ⊎ (validate_dag g self ≡ err circular_dependency)
unfolding validate_dag
validate_dag_outcomes g self =
    let adj = children_of g in
    let root = record { node = self; path = [] } ∷ [] in
    let fuel = suc (count_links adj) in
    dag_loop_outcomes adj fuel root []
      (dag_loop_ends adj fuel root [] (omega (arith, unvisited-nil 0 adj)))
