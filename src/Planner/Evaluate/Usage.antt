-- ===== src/Planner/Evaluate/Usage.antt =====
-- What an evaluated option uses of the resource pool.
use qervan_ai.Common.{
  ℕ, ◌≡◌, refl, sym, ◌∙◌, ap, ◌⊎◌, inl, inr, String, List, [], ◌∷◌, none, some, Result, ok, err,
  ◌>>=◌, Dict, lookup, lookup_or, get_elem?, arith, >>=-eq-ok, ok-injective, ok-ne-err,
  none-ne-some, Option-cases,
}
use qervan_ai.Common.Int.{ℤ, pos, ◌+ℤ◌, ◌≤ℤ◌, +ℤ_assoc, +ℤ-zero, zero-+ℤ}
use qervan_ai.Common.Real.{Real, max_r}
use qervan_ai.Planner.{TaskNode, Graph, PlanError, index_error, State, pending, other}
use qervan_ai.Planner.Evaluate.{PlanningResult, require, add_node, add_nodes, evaluate_option}
use qervan_ai.Planner.Evaluate.Require.{asked, Within, Within-trans, Grows, require_lem}

module _ {F : Type 0} where
  -- The nodes of an option that are pending: the others are passed over.
  abbrev pub pending_nodes : Graph F → List ℕ → List (TaskNode F)
  pending_nodes g [] = []
  pending_nodes g (n ∷ ns) =
      let rest = pending_nodes g ns in
      elim (get_elem? g n) [
        | none ↦ rest
        | some t ↦ elim t.state [ pending ↦ t ∷ rest | other ↦ rest ]
      ]

  abbrev pub demand : List (TaskNode F) → String → ℤ
  demand [] res = pos 0
  demand (t ∷ ts) res = asked t.resources res +ℤ demand ts res

  abbrev pub sum_costs : Real F → F → List (TaskNode F) → F
  sum_costs r acc [] = acc
  sum_costs r acc (t ∷ ts) = sum_costs r (r.add acc t.cost) ts

  abbrev pub max_risk : Real F → F → List (TaskNode F) → F
  max_risk r acc [] = acc
  max_risk r acc (t ∷ ts) = max_risk r (max_r r acc t.risk) ts

pub State-cases : (s : State) → (s ≡ pending) ⊎ (s ≡ other)
State-cases pending = inl refl
State-cases other = inr refl

module _ {F : Type 0} (g : Graph F) (n : ℕ) (ns : List ℕ) where
  pub pending_nodes-none : get_elem? g n ≡ none → pending_nodes g (n ∷ ns) ≡ pending_nodes g ns
  pending_nodes-none e = rw (e, pending_nodes)

  pub pending_nodes-pending :
      (t : TaskNode F)
      → get_elem? g n ≡ some t
      → t.state ≡ pending
      → pending_nodes g (n ∷ ns) ≡ t ∷ pending_nodes g ns
  pending_nodes-pending t e p = rw (e, pending_nodes) (simp p)

  pub pending_nodes-other :
      (t : TaskNode F)
      → get_elem? g n ≡ some t
      → t.state ≡ other
      → pending_nodes g (n ∷ ns) ≡ pending_nodes g ns
  pending_nodes-other t e p = rw (e, pending_nodes) (simp p)

taken_cases :
    {F : Type 0} (m : Result PlanError (Dict ℤ)) (cost risk : F) (acc : Dict ℤ × F × F)
    → (m >>= λ required. ok (required, cost, risk)) ≡ ok acc
    → (m ≡ ok acc.0) × (acc.1 ≡ cost) × (acc.2 ≡ risk)
taken_cases (ok required) cost risk acc h =
    let e = sym (ok-injective h) in
    (
      ap (λ (a : Dict ℤ × _ × _). ok a.0) (sym e),
      ap (λ (a : Dict ℤ × _ × _). a.1) e,
      ap (λ (a : Dict ℤ × _ × _). a.2) e,
    )
taken_cases (err x) cost risk acc h = cc

module _ {F : Type 0} (r : Real F) (g : Graph F) (pool : Dict ℤ) where
  -- What a step that does not raise did.
  add_node_cases :
      (n : ℕ) (required : Dict ℤ) (cost risk : F) (acc : Dict ℤ × F × F)
      → add_node r g pool n (required, cost, risk) ≡ ok acc
      → (t : TaskNode F) × (get_elem? g n ≡ some t)
        × ((t.state ≡ pending)
              × ((require pool t.resources required ≡ ok acc.0)
                  × (acc.1 ≡ r.add cost t.cost)
                  × (acc.2 ≡ max_r r risk t.risk))
            ⊎ (t.state ≡ other) × (acc ≡ (required, cost, risk)))
  unfolding add_node
  add_node_cases n required cost risk acc h = elim (Option-cases (get_elem? g n)) [
    | inl e ↦ absurd (ok-ne-err acc index_error (sym h ∙ rw (e, add_node)))
    | inr (t, e) ↦ elim (State-cases t.state) [
      | inl p ↦ (
        t,
        e,
        inl (
          p,
          taken_cases (require pool t.resources required) (r.add cost t.cost) (max_r r risk t.risk)
              acc (rw (e, add_node) (rw p) ∙ h),
        ),
      )
      | inr o ↦ (t, e, inr (o, ok-injective (sym h ∙ rw (e, add_node) (rw o))))
    ]
  ]

  record Adds (required : Dict ℤ) (cost risk : F) (ts : List (TaskNode F)) (acc : Dict ℤ × F × F)
      : Type 0 where
    within : Within pool required acc.0
    grows : Grows required acc.0 (demand ts)
    cost_lem : acc.1 ≡ sum_costs r cost ts
    risk_lem : acc.2 ≡ max_risk r risk ts

  add_nodes_lem :
      (ns : List ℕ) (required : Dict ℤ) (cost risk : F) (acc : Dict ℤ × F × F)
      → add_nodes r g pool ns (required, cost, risk) ≡ ok acc
      → Adds required cost risk (pending_nodes g ns) acc
  unfolding add_nodes
  add_nodes_lem [] required cost risk acc h = record {
    within = λ res a e. inl (ground arith);
    grows = λ res. ground (arith, +ℤ-zero (lookup_or required res (pos 0)));
    cost_lem = ground arith;
    risk_lem = ground arith;
  }
  add_nodes_lem (n ∷ ns) required cost risk acc h =
      let (mid, first, next) =
        >>=-eq-ok (add_node r g pool n (required, cost, risk)) (add_nodes r g pool ns) h in
      let rest = add_nodes_lem ns mid.0 mid.1 mid.2 acc next in
      let (t, here, step) = add_node_cases n required cost risk mid first in
      elim step [
        | inl (is_pending, (takes, adds, tops)) ↦
            let (within, grows) = require_lem pool t.resources required takes in
            record {
              within = Within-trans pool required mid.0 acc.0 within rest.within;
              grows = λ res. ground (
                arith,
                grows res,
                rest.grows res,
                +ℤ_assoc (lookup_or required res (pos 0)) (asked t.resources res)
                    (demand (pending_nodes g ns) res),
              );
              cost_lem = ground (arith, rest.cost_lem);
              risk_lem = ground (arith, rest.risk_lem);
            }
        | inr (is_other, same) ↦ record {
          within = λ res a e. ground (arith, rest.within res a);
          grows = λ res. ground (arith, rest.grows res);
          cost_lem = ground (arith, rest.cost_lem);
          risk_lem = ground (arith, rest.risk_lem);
        }
      ]

  -- The plan of an option that is not refused.
  pub record IsPlanOf (nodes : List ℕ) (plan : PlanningResult F) : Type 0 where
    pub sequence : plan.sequence ≡ nodes
    pub usage :
        (res : String)
        → lookup_or plan.resource_usage res (pos 0) ≡ demand (pending_nodes g nodes) res
    pub fits :
        (res : String) (a : ℤ)
        → lookup plan.resource_usage res ≡ some a
        → a ≤ℤ lookup_or pool res (pos 0)
    pub cost : plan.cost ≡ sum_costs r r.zero_r (pending_nodes g nodes)
    pub risk : plan.risk_factor ≡ max_risk r r.zero_r (pending_nodes g nodes)

  -- Where an option is not refused, its plan runs the option's nodes; its usage of each resource is the sum of
  -- what the pending nodes ask for; no entry of the usage passes what the pool holds; and its cost and risk are the sum and the
  -- greatest of the pending nodes' costs and risks.
  pub evaluate_option-IsPlanOf :
      (nodes : List ℕ) (plan : PlanningResult F)
      → evaluate_option r g pool nodes ≡ ok plan
      → IsPlanOf nodes plan
  unfolding evaluate_option lookup lookup_or
  evaluate_option-IsPlanOf nodes plan h =
      let (acc, runs, e) =
        >>=-eq-ok (add_nodes r g pool nodes ([], r.zero_r, r.zero_r))
          (λ (required, cost, risk). ok (record {
            sequence = nodes;
            resource_usage = required;
            cost = cost;
            risk_factor = risk;
          }))
          h in
      let adds = add_nodes_lem nodes [] r.zero_r r.zero_r acc runs in
      let p = ok-injective (sym e) in
      record {
        sequence = ap (λ (x : PlanningResult F). x.sequence) p;
        usage = λ res.
            ap (λ (x : PlanningResult F). lookup_or x.resource_usage res (pos 0)) p
            ∙ adds.grows res
            ∙ zero-+ℤ (demand (pending_nodes g nodes) res);
        fits = λ res a x.
            elim (adds.within res a
              (ap (λ (y : PlanningResult F). lookup y.resource_usage res) (sym p) ∙ x)) [
                | inl old ↦ absurd (none-ne-some old)
                | inr le ↦ le
              ];
        cost = ap (λ (x : PlanningResult F). x.cost) p ∙ adds.cost_lem;
        risk = ap (λ (x : PlanningResult F). x.risk_factor) p ∙ adds.risk_lem;
      }
