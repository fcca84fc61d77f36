-- ===== src/Planner/Decompose.antt =====
-- ANDNode.decompose and ORNode.decompose. Both call `child.validate_resources`, a method that no
-- class of the file defines: it is a parameter, `none` where the attribute is not found.
pub mod Admitted
pub mod Children
use qervan_ai.Common.{
  Bool, true, false, if◌then◌else◌, ℕ, List, [], ◌∷◌, ◌++◌, Option, none, some, Result, ok, err,
  ◌>>=◌, Dict, get_elem?,
}
use qervan_ai.Common.Int.{ℤ}
use qervan_ai.Planner.{
  TaskNode, Graph, PlanError, except_conflict, attribute_error, index_error, and_node, or_node,
  atomic_node,
}

abbrev pub Method : Type 0 → Type 0
Method F = Option (TaskNode F → Dict ℤ → Result PlanError (Unit {0}))

module _ {F : Type 0} (method : Method F) (g : Graph F) (available : Dict ℤ) where
  -- child.validate_resources(available_resources)
  unfoldable pub validate_child : ℕ → Result PlanError (Unit {0})
  validate_child child = elim (get_elem? g child) [
    | none ↦ err index_error
    | some t ↦ elim method [ none ↦ err attribute_error | some f ↦ f t available ]
  ]

  -- try: child.validate_resources(…) except ResourceConflictError: continue
  unfoldable pub try_child : ℕ → Result PlanError Bool
  unfolding except_conflict validate_child
  try_child c = elim (validate_child c) [ ok _ ↦ ok true | err e ↦ except_conflict e false ]

  -- The loop of ANDNode.decompose.
  unfoldable pub and_loop : List ℕ → List ℕ → Result PlanError (List ℕ)
  unfolding try_child
  and_loop [] options = ok options
  and_loop (c ∷ cs) options =
      try_child c >>= λ fits. and_loop cs (if fits then options ++ c ∷ [] else options)

  -- The loop of ORNode.decompose.
  unfoldable pub or_loop : List ℕ → List (List ℕ) → Result PlanError (List (List ℕ))
  unfolding try_child
  or_loop [] alternatives = ok alternatives
  or_loop (c ∷ cs) alternatives = try_child c >>= λ fits.
      or_loop cs (if fits then alternatives ++ (c ∷ []) ∷ [] else alternatives)

  -- [options] if options else []
  unfoldable pub whole_or_none : List ℕ → List (List ℕ)
  whole_or_none [] = []
  whole_or_none (c ∷ cs) = (c ∷ cs) ∷ []

  -- AtomicNode has no `decompose`.
  unfoldable pub decompose : TaskNode F → Result PlanError (List (List ℕ))
  unfolding and_loop or_loop whole_or_none
  decompose t = elim t.class [
    | and_node ↦ (and_loop t.children [] >>= λ options. ok (whole_or_none options))
    | or_node ↦ or_loop t.children []
    | atomic_node ↦ err attribute_error
  ]
