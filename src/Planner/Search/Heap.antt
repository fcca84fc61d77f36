-- ===== src/Planner/Search/Heap.antt =====
-- The heap of the search: every plan that is taken is cheaper than all that wait, so the heap is a
-- stack and no two costs on it are equal.
use qervan_ai.Common.{
  ℕ, ◌≡◌, refl, inl, inr, true, false, [], ◌∷◌, Option, none, some, ok, All, Bool-cases,
}
use qervan_ai.Common.Real.{Real}
use qervan_ai.Planner.Evaluate.{PlanningResult}
use qervan_ai.Planner.Search.{Heap, heappush, improves}

-- The cost of the best plan is at most that of every entry; with no plan there is no entry.
abbrev pub IsStack : {F : Type 0} → Real F → Heap F → Option (PlanningResult F) → Type 0
IsStack r heap none = heap ≡ []
IsStack r heap (some best) = All (λ (e : _ × ℕ). r.lt e.0 best.cost ≡ false) heap

module _ {F : Type 0} (r : Real F) where
  improves-lt :
      (total : F) (e : F × ℕ) (best : PlanningResult F)
      → r.lt total best.cost ≡ true
      → r.lt e.0 best.cost ≡ false
      → r.lt total e.0 ≡ true
  improves-lt total e best h k = elim (Bool-cases (r.lt total e.0)) [
    | inl less ↦ less
    | inr n ↦ cc (r.lt_cotrans total e.0 best.cost n k)
  ]

  pub heappush-front :
      (total : F) (node : ℕ) (heap : Heap F) (best : Option (PlanningResult F))
      → improves r total best ≡ true
      → IsStack r heap best
      → heappush r (total, node) heap ≡ ok ((total, node) ∷ heap)
  unfolding heappush improves
  heappush-front total node [] best i s = refl
  heappush-front total node (e ∷ heap) none i s = cc
  heappush-front total node (e ∷ heap) (some best) i (h, hs) = rw (improves-lt total e best i h)

  IsStack-below :
      (total cost : F) (heap : Heap F)
      → r.lt total cost ≡ true
      → All (λ (e : F × ℕ). r.lt e.0 cost ≡ false) heap
      → All (λ (e : F × ℕ). r.lt e.0 total ≡ false) heap
  IsStack-below total cost [] h s = tt
  IsStack-below total cost (e ∷ heap) h (k, ks) = (
    elim (Bool-cases (r.lt e.0 total)) [
      | inl less ↦ cc (r.lt_trans e.0 total cost less h)
      | inr n ↦ n
    ],
    IsStack-below total cost heap h ks,
  )

  pub IsStack-push :
      (total : F) (node : ℕ) (heap : Heap F) (best : Option (PlanningResult F))
      (plan : PlanningResult F)
      → improves r total best ≡ true
      → IsStack r heap best
      → IsStack r ((total, node) ∷ heap) (some (record plan { cost = total }))
  unfolding improves
  IsStack-push total node heap none plan i s = rw s (r.lt_irrefl total, tt)
  IsStack-push total node heap (some best) plan i s =
      (r.lt_irrefl total, IsStack-below total best.cost heap i s)
