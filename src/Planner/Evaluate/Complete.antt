-- ===== src/Planner/Evaluate/Complete.antt =====
-- Which options `_evaluate_option` refuses, and with which exception.
use qervan_ai.Common.{
  ℕ, ◌≡◌, refl, sym, ◌∙◌, inl, inr, ◌↔◌, true, String, List, [], ◌∷◌, none, some, ok, err, Dict,
  lookup, lookup_or, insert, lookup_or-eq, get_elem?, arith, eq_refl, All, Option-cases,
}
use qervan_ai.Common.Int.{ℤ, pos, ◌+ℤ◌, ◌≤ℤ◌, ltb_ℤ, +ℤ_assoc, zero-+ℤ, int_laws, +ℤ_parts}
use qervan_ai.Common.Real.{Real, max_r}
use qervan_ai.Planner.{TaskNode, Graph, key_error, pending, other}
use qervan_ai.Planner.Evaluate.{
  PlanningResult, require, add_node, add_nodes, evaluate_option, conflict,
}
use qervan_ai.Planner.Evaluate.Require.{asked, insert-Grows, require_lem}
use qervan_ai.Planner.Evaluate.Usage.{
  pending_nodes, demand, State-cases, evaluate_option-IsPlanOf, pending_nodes-pending,
  pending_nodes-other,
}

abbrev pub IsNonneg : Dict ℤ → Type 0
IsNonneg d = All (λ (p : String × ℤ). pos 0 ≤ℤ p.1) d

asked-nonneg : (items : Dict ℤ) (res : String) → IsNonneg items → pos 0 ≤ℤ asked items res
asked-nonneg [] res h = omega arith
asked-nonneg ((k, a) ∷ items) res (h, hs) =
    ground (arith, asked-nonneg items res hs, +ℤ_parts a (asked items res))

le_of_part : (a b c d : ℤ) → a +ℤ (b +ℤ c) ≤ℤ d → pos 0 ≤ℤ c → a +ℤ b ≤ℤ d
le_of_part a b c d h k = omega int_laws

-- A bound on all that is used and is still to be asked for.
abbrev Fits : Dict ℤ → Dict ℤ → (String → ℤ) → Type 0
Fits pool required more =
    (res : String) → lookup_or required res (pos 0) +ℤ more res ≤ℤ lookup_or pool res (pos 0)

require_complete :
    (pool items required : Dict ℤ)
    → IsNonneg items
    → Fits pool required (asked items)
    → (after : Dict ℤ) × (require pool items required ≡ ok after)
unfolding require
require_complete pool [] required h fits = (required, refl)
require_complete pool ((k, a) ∷ items) required (h, hs) fits =
    let old = lookup_or required k (pos 0) in
    let (after, e) =
      require_complete pool items (insert required k (old +ℤ a)) hs
        (λ res. rw (insert-Grows required k res a (asked items res)) (fits res)) in
    (
      after,
      ground (
        arith,
        e,
        fits k,
        eq_refl k,
        asked-nonneg items k hs,
        +ℤ_parts old a,
        +ℤ_parts a (asked items k),
        +ℤ_parts old (a +ℤ asked items k),
      ),
    )

module _ {F : Type 0} (r : Real F) (g : Graph F) (pool : Dict ℤ) where
  -- The reference is to a node, whose amounts are not negative.
  abbrev pub IsNode : ℕ → Type 0
  IsNode n = (t : TaskNode F) × (get_elem? g n ≡ some t) × IsNonneg t.resources

  demand-nonneg :
      (ns : List ℕ) (res : String) → All IsNode ns → pos 0 ≤ℤ demand (pending_nodes g ns) res
  demand-nonneg [] res h = omega arith
  demand-nonneg (n ∷ ns) res ((t, e, nonneg), hs) = ground (
    arith,
    demand-nonneg ns res hs,
    asked-nonneg t.resources res nonneg,
    +ℤ_parts (asked t.resources res) (demand (pending_nodes g ns) res),
  )

  -- One round, by the state of the node.
  round_pending :
      (n : ℕ) (ns : List ℕ) (t : TaskNode F) (required after : Dict ℤ) (cost risk : F)
      → get_elem? g n ≡ some t
      → t.state ≡ pending
      → require pool t.resources required ≡ ok after
      → add_nodes r g pool (n ∷ ns) (required, cost, risk)
        ≡ add_nodes r g pool ns (after, r.add cost t.cost, max_r r risk t.risk)
  unfolding add_nodes add_node
  round_pending n ns t required after cost risk e p takes = rw (e, add_node) (rw p (rw takes))

  round_other :
      (n : ℕ) (ns : List ℕ) (t : TaskNode F) (acc : Dict ℤ × F × F)
      → get_elem? g n ≡ some t
      → t.state ≡ other
      → add_nodes r g pool (n ∷ ns) acc ≡ add_nodes r g pool ns acc
  unfolding add_nodes add_node
  round_other n ns t acc e p = rw (e, add_node) (rw p)

  add_nodes_complete :
      (ns : List ℕ) (required : Dict ℤ) (cost risk : F)
      → All IsNode ns
      → Fits pool required (demand (pending_nodes g ns))
      → (acc : Dict ℤ × F × F) × (add_nodes r g pool ns (required, cost, risk) ≡ ok acc)
  unfolding add_nodes
  add_nodes_complete [] required cost risk h fits = ((required, cost, risk), refl)
  add_nodes_complete (n ∷ ns) required cost risk ((t, e, nonneg), hs) fits =
      elim (State-cases t.state) [
        | inr o ↦
            let (acc, runs) =
              add_nodes_complete ns required cost risk hs
                (λ res. rw (pending_nodes-other g n ns t e o) at (fits res)) in
            (acc, round_other n ns t (required, cost, risk) e o ∙ runs)
        | inl p ↦
            let now = λ (res : String). lookup_or required res (pos 0) in
            let later = λ (res : String). demand (pending_nodes g ns) res in
            let all_fits : Fits pool required (λ res. asked t.resources res +ℤ later res) =
              λ res. rw (pending_nodes-pending g n ns t e p) at (fits res) in
            let (after, takes) = require_complete pool t.resources required nonneg (λ res.
              le_of_part (now res) (asked t.resources res) (later res) (lookup_or pool res (pos 0))
                (all_fits res) (demand-nonneg ns res hs)) in
            let (_, grows) = require_lem pool t.resources required takes in
            let (acc, runs) =
              add_nodes_complete ns after (r.add cost t.cost) (max_r r risk t.risk) hs (λ res.
                rw (grows res, +ℤ_assoc (now res) (asked t.resources res) (later res))
                  (all_fits res)) in
            (acc, round_pending n ns t required after cost risk e p takes ∙ runs)
      ]

  lookup_or-le :
      (nodes : List ℕ) (plan : PlanningResult F) (res : String)
      → evaluate_option r g pool nodes ≡ ok plan
      → pos 0 ≤ℤ lookup_or pool res (pos 0)
      → lookup_or plan.resource_usage res (pos 0) ≤ℤ lookup_or pool res (pos 0)
  lookup_or-le nodes plan res h nonneg =
      let fits = (evaluate_option-IsPlanOf r g pool nodes plan h).fits res in
      elim (Option-cases (lookup plan.resource_usage res)) [
        | inl e ↦ rw (lookup_or-eq plan.resource_usage res (pos 0)) (rw e nonneg)
        | inr (a, e) ↦ rw (lookup_or-eq plan.resource_usage res (pos 0)) (rw e (fits a e))
      ]

  -- Over nodes whose amounts are not negative and a pool that holds no negative amount, an option is
  -- evaluated to a plan exactly if the pool holds what its pending nodes ask for together, of each
  -- resource.
  pub evaluate_option_iff :
      (nodes : List ℕ)
      → All IsNode nodes
      → ((res : String) → pos 0 ≤ℤ lookup_or pool res (pos 0))
      → ((plan : PlanningResult F) × (evaluate_option r g pool nodes ≡ ok plan))
        ↔ ((res : String) → demand (pending_nodes g nodes) res ≤ℤ lookup_or pool res (pos 0))
  unfolding evaluate_option lookup_or
  evaluate_option_iff nodes valid nonneg = (
    λ (plan, h) res.
        rw (sym ((evaluate_option-IsPlanOf r g pool nodes plan h).usage res))
          (lookup_or-le nodes plan res h (nonneg res)),
    λ fits.
        let (acc, runs) =
          add_nodes_complete nodes [] r.zero_r r.zero_r valid
            (λ res. rw (zero-+ℤ (demand (pending_nodes g nodes) res)) (fits res)) in
        (
          record { sequence = nodes; resource_usage = acc.0; cost = acc.1; risk_factor = acc.2 },
          rw runs,
        ),
  )

  -- A pending node that asks for some of a resource that the pool does not list makes the evaluation raise
  -- KeyError, which the search does not catch, instead of ResourceConflictError.
  pub evaluate_option_unlisted :
      (n : ℕ) (ns : List ℕ) (t : TaskNode F) (k : String) (amount : ℤ) (items : Dict ℤ)
      → get_elem? g n ≡ some t
      → t.state ≡ pending
      → t.resources ≡ (k, amount) ∷ items
      → ltb_ℤ (pos 0) amount ≡ true
      → lookup pool k ≡ none
      → evaluate_option r g pool (n ∷ ns) ≡ err key_error
  unfolding evaluate_option add_nodes add_node require conflict lookup_or
  evaluate_option_unlisted n ns t k amount items e p rs some_of missing =
      rw (e, add_node)
        (rw p (
          rw rs (
            rw (zero-+ℤ amount, lookup_or-eq pool k (pos 0))
              (rw missing (rw some_of (rw (missing, conflict)))))))
