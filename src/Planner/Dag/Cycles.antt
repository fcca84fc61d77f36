-- ===== src/Planner/Dag/Cycles.antt =====
-- `validate_dag` decides whether a cycle of child links can be reached.

use qervan_ai.Common.{
  ℕ, zero, suc, ◌≡◌, refl, subst, ◌⊎◌, inl, inr, true, List, [], ◌∷◌, ok, err, arith, contains, All,
  ==_iff, Bool-cases,
}
use qervan_ai.Planner.{circular_dependency, links, Graph, children_of, Below, link, more}
use qervan_ai.Planner.Dag.{Entry, push_children, dag_loop, count_links, validate_dag}
use qervan_ai.Planner.Dag.Ends.{validate_dag_outcomes}
use qervan_ai.Planner.Dag.Acyclic.{IsAcyclic-no_cycle, IsAcyclic-Below, validate_dag-IsAcyclic}

module _ (adj : List (List ℕ)) where
  module _ (self : ℕ) where
    abbrev Reached : ℕ → Type 0
    Reached v = (self ≡ v) ⊎ Below adj self v

    -- Every node on the path of an entry leads to the entry's node.
    abbrev Traced : Entry → Type 0
    Traced e = Reached e.node × ((p : ℕ) → contains e.path p ≡ true → Below adj p e.node)

    Traced-child :
        (e : Entry) (c : ℕ)
        → Traced e
        → contains (links adj e.node) c ≡ true
        → Traced (record { node = c; path = e.node ∷ e.path })
    Traced-child e c (r, t) h = (
      inr (elim r [ inl eq ↦ link (rw (← eq) at h) | inr b ↦ more b h ]),
      λ p on. elim (Bool-cases (contains e.path p)) [
        | inl old ↦ more (t p old) h
        | inr new ↦
            link (subst (λ x. contains (links adj x) c ≡ true) (ground (arith, ==_iff e.node p)) h)
      ],
    )

    Traced-push :
        (e : Entry) (cs : List ℕ) (stack : List Entry)
        → Traced e
        → ((c : ℕ) → contains cs c ≡ true → contains (links adj e.node) c ≡ true)
        → All Traced stack
        → All Traced (push_children cs (e.node ∷ e.path) stack)
    unfolding push_children
    Traced-push e [] stack t sub all = all
    Traced-push e (c ∷ cs) stack t sub all =
        Traced-push e cs (record { node = c; path = e.node ∷ e.path } ∷ stack) t
          (λ d h. sub d (ground (arith, h)))
          (Traced-child e c t (sub c (ground (arith, ==_iff c c))), all)

    -- The search raises at a node that is on a cycle.
    dag_loop_raises :
        (fuel : ℕ) (stack : List Entry) (visited : List ℕ)
        → All Traced stack
        → dag_loop adj fuel stack visited ≡ err circular_dependency
        → (v : ℕ) × Reached v × Below adj v v
    unfolding dag_loop
    dag_loop_raises zero [] visited all h = cc
    dag_loop_raises (suc fuel) [] visited all h = cc
    dag_loop_raises zero (e ∷ stack) visited all h = cc
    dag_loop_raises (suc fuel) (e ∷ stack) visited (t, all) h =
        elim (Bool-cases (contains e.path e.node)) [
          | inl on ↦ (e.node, t.0, t.1 e.node on)
          | inr off ↦ elim (Bool-cases (contains visited e.node)) [
            | inl old ↦ dag_loop_raises fuel stack visited all (ground arith)
            | inr new ↦
                dag_loop_raises fuel (push_children (links adj e.node) (e.node ∷ e.path) stack)
                  (e.node ∷ visited) (Traced-push e (links adj e.node) stack t (λ c k. k) all)
                  (ground arith)
          ]
        ]

module _ {F : Type 0} (g : Graph F) (self : ℕ) where
  -- A node is on a cycle of child links that can be reached from the root.
  abbrev pub HasCycle : Type 0
  HasCycle = (v : ℕ) × ((self ≡ v) ⊎ Below (children_of g) self v) × Below (children_of g) v v

  validate_dag_raises : validate_dag g self ≡ err circular_dependency → HasCycle
  unfolding validate_dag
  validate_dag_raises h =
      let adj = children_of g in
      dag_loop_raises adj self (suc (count_links adj)) (record { node = self; path = [] } ∷ []) []
        ((inl refl, λ p e. cc), tt) h

  validate_dag_passes : validate_dag g self ≡ ok tt → ¬ HasCycle
  validate_dag_passes h (v, inl e, c) =
      IsAcyclic-no_cycle (children_of g) v (rw e at (validate_dag-IsAcyclic g self h)) c
  validate_dag_passes h (v, inr b, c) =
      IsAcyclic-no_cycle (children_of g) v
        (IsAcyclic-Below (children_of g) (validate_dag-IsAcyclic g self h) b) c

  -- `validate_dag` always ends: it raises `CircularDependencyError` if some cycle of child links can
  -- be reached from the root, and passes if none can.
  pub validate_dag_decides :
      ((validate_dag g self ≡ ok tt) × (¬ HasCycle))
      ⊎ ((validate_dag g self ≡ err circular_dependency) × HasCycle)
  validate_dag_decides = elim (validate_dag_outcomes g self) [
    | inl passes ↦ inl (passes, validate_dag_passes passes)
    | inr raises ↦ inr (raises, validate_dag_raises raises)
  ]
