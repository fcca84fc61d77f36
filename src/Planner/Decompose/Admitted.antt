-- ===== src/Planner/Decompose/Admitted.antt =====
-- What `decompose` returns, with and without the method that it calls.
use qervan_ai.Common.{
  ℕ, ◌≡◌, refl, List, [], ◌∷◌, ◌++◌, map, none, ok, err, Dict, arith, Bool, true, false,
  if◌then◌else◌, All, ◌⊎◌, ◌≢◌,
}
use mathlib.Core.List.{append-nil, append_assoc}
use qervan_ai.Common.Int.{ℤ}
use qervan_ai.Planner.{
  TaskNode, Graph, except_conflict, resource_conflict, and_node, or_node, Class, atomic_node,
}
use qervan_ai.Planner.Decompose.{
  Method, validate_child, try_child, and_loop, or_loop, whole_or_none, decompose,
}

module _ {F : Type 0} (method : Method F) (g : Graph F) (available : Dict ℤ) where
  -- The method accepts the child, or refuses it with the one exception that is caught.
  abbrev pub IsChecked : ℕ → Type 0
  IsChecked c =
      (validate_child method g available c ≡ ok tt)
      ⊎ (validate_child method g available c ≡ err resource_conflict)

  abbrev pub accepts : ℕ → Bool
  accepts c = elim (validate_child method g available c) [ ok _ ↦ true | err _ ↦ false ]

  -- The children that the method accepts, in order.
  pub admitted : List ℕ → List ℕ
  admitted [] = []
  admitted (c ∷ cs) = let rest = admitted cs in if accepts c then c ∷ rest else rest

  -- What a decomposition into the children `cs` should be, by class.
  abbrev pub alternatives_of : Class → List ℕ → List (List ℕ)
  alternatives_of and_node [] = []
  alternatives_of and_node (c ∷ cs) = (c ∷ cs) ∷ []
  alternatives_of or_node cs = map (λ c. c ∷ []) cs
  alternatives_of atomic_node cs = []

  and_loop_lem :
      (cs options : List ℕ)
      → All IsChecked cs
      → and_loop method g available cs options ≡ ok (options ++ admitted cs)
  unfolding and_loop admitted try_child except_conflict
  and_loop_lem [] options h = rw append-nil
  and_loop_lem (c ∷ cs) options (checked, h) = ground (
    arith,
    and_loop_lem cs options h,
    and_loop_lem cs (options ++ c ∷ []) h,
    append_assoc options (c ∷ []) (admitted cs),
  )

  or_loop_lem :
      (cs : List ℕ) (found : List (List ℕ))
      → All IsChecked cs
      → or_loop method g available cs found ≡ ok (found ++ map (λ c. c ∷ []) (admitted cs))
  unfolding or_loop admitted try_child except_conflict
  or_loop_lem [] found h = rw append-nil
  or_loop_lem (c ∷ cs) found (checked, h) = ground (
    arith,
    or_loop_lem cs found h,
    or_loop_lem cs (found ++ (c ∷ []) ∷ []) h,
    append_assoc found ((c ∷ []) ∷ []) (map (λ d. d ∷ []) (admitted cs)),
  )

  whole_or_none_lem :
      (cs : List ℕ) → whole_or_none method g available cs ≡ alternatives_of and_node cs
  unfolding whole_or_none
  whole_or_none_lem [] = refl
  whole_or_none_lem (c ∷ cs) = refl

  -- Where a subclass supplies `validate_resources` and the method raises nothing but
  -- ResourceConflictError, an AND node has one decomposition, all the children that the method accepts,
  -- in order, or none if it accepts no child; an OR node has one for each child that it accepts.
  pub decompose-eq_alternatives :
      (t : TaskNode F)
      → t.class ≢ atomic_node
      → All IsChecked t.children
      → decompose method g available t ≡ ok (alternatives_of t.class (admitted t.children))
  unfolding decompose
  decompose-eq_alternatives t composite h = ground (
    arith,
    and_loop_lem t.children [] h,
    or_loop_lem t.children [] h,
    whole_or_none_lem (admitted t.children),
  )

-- Where the method is not found, a node that has a child has no decomposition: the call raises.
pub decompose_unimplemented :
    {F : Type 0} (g : Graph F) (available : Dict ℤ) (t : TaskNode F) (options : List (List ℕ))
    → decompose none g available t ≡ ok options
    → options ≡ []
unfolding decompose validate_child try_child and_loop or_loop
decompose_unimplemented g available t options h = by_children t.children refl
  where
    by_children : (cs : List ℕ) → t.children ≡ cs → options ≡ []
    by_children [] e = ground arith
    by_children (c ∷ cs) e = ground arith
