-- ===== src/Planner/Build.antt =====
-- Graphs that are built by `add_child` calls: the check of `add_child` reads the preconditions, which
-- no call of `add_child` changes.
use qervan_ai.Common.{
  ℕ, zero, suc, ◌≡◌, refl, sym, ◌∙◌, ap, inl, inr, true, List, [], ◌∷◌, ◌++◌, some, ok, err, set,
  get_elem?, contains, contains-append, if◌then◌else◌, ◌==◌, ==_iff, arith, subst, Option-cases,
  ok-injective, ok-ne-err,
}
use qervan_ai.Planner.{
  TaskNode, Graph, circular_dependency, index_error, preconditions_of, children_of, links, Below,
  link, more,
}
use qervan_ai.Planner.Ancestors.{add_child, append_child}
use qervan_ai.Planner.Ancestors.Correct.{add_child_cases}
use qervan_ai.Planner.Dag.{validate_dag}
use qervan_ai.Planner.Dag.Cycles.{validate_dag_decides}

links-set :
    {F : Type 0} (g : Graph F) (i j : ℕ) (t : TaskNode F) (l : List ℕ)
    → get_elem? g i ≡ some t
    → links (children_of (set g i (record t { children = l }))) j
      ≡ (if i == j then l else links (children_of g) j)
links-set [] i j t l h = cc
links-set (u ∷ g) zero zero t l h = refl
links-set (u ∷ g) zero (suc j) t l h = ground arith
links-set (u ∷ g) (suc i) zero t l h = ground arith
links-set (u ∷ g) (suc i) (suc j) t l h = ground (arith, links-set g i j t l h)

preconditions-set :
    {F : Type 0} (g : Graph F) (i : ℕ) (t : TaskNode F) (l : List ℕ)
    → get_elem? g i ≡ some t
    → preconditions_of (set g i (record t { children = l })) ≡ preconditions_of g
preconditions-set [] i t l h = cc
preconditions-set (u ∷ g) zero t l h = ground arith
preconditions-set (u ∷ g) (suc i) t l h =
    ap (λ ls. u.preconditions ∷ ls) (preconditions-set g i t l h)

pub links-children :
    {F : Type 0} (g : Graph F) (i : ℕ) (t : TaskNode F)
    → get_elem? g i ≡ some t
    → links (children_of g) i ≡ t.children
links-children [] i t h = cc
links-children (u ∷ g) zero t h = ground arith
links-children (u ∷ g) (suc i) t h = links-children g i t h

module _ {F : Type 0} (g g' : Graph F) (self node : ℕ)
    (appended : append_child g self node ≡ ok g') where
  -- Appending a child changes the children of one node.
  links-append_child :
      (j : ℕ)
      → links (children_of g') j
        ≡ (if self == j then links (children_of g) j ++ node ∷ [] else links (children_of g) j)
  unfolding append_child
  links-append_child j = elim (Option-cases (get_elem? g self)) [
    | inl e ↦ absurd (ok-ne-err g' index_error (sym appended ∙ rw (e, append_child)))
    | inr (t, e) ↦
        let l = t.children ++ node ∷ [] in
        let made : set g self (record t { children = l }) ≡ g' =
          ok-injective (sym (rw (e, append_child)) ∙ appended) in
        subst
          (λ (x : Graph F).
            links (children_of x) j
            ≡ (if self == j then links (children_of g) j ++ node ∷ [] else links (children_of g) j))
          made (ground (arith, links-set g self j t l e, links-children g self t e, ==_iff self j))
  ]

  preconditions-append_child : preconditions_of g' ≡ preconditions_of g
  unfolding append_child
  preconditions-append_child = elim (Option-cases (get_elem? g self)) [
    | inl e ↦ absurd (ok-ne-err g' index_error (sym appended ∙ rw (e, append_child)))
    | inr (t, e) ↦
        let l = t.children ++ node ∷ [] in
        let made : set g self (record t { children = l }) ≡ g' =
          ok-injective (sym (rw (e, append_child)) ∙ appended) in
        subst (λ (x : Graph F). preconditions_of x ≡ preconditions_of g) made
          (preconditions-set g self t l e)
  ]

-- No node has a precondition.
abbrev pub IsBare : {F : Type 0} → Graph F → Type 0
IsBare g = (n : ℕ) → links (preconditions_of g) n ≡ []

IsBare-no_Below : {F : Type 0} (g : Graph F) {a b : ℕ} → IsBare g → ¬ Below (preconditions_of g) a b
IsBare-no_Below g {a} h (link {b = c} l) = cc (sym l ∙ ap (λ s. contains s c) (h a))
IsBare-no_Below g h (more s l) = IsBare-no_Below g h s

add_child-bare :
    {F : Type 0} (g : Graph F) (self node : ℕ) (t : TaskNode F)
    → IsBare g
    → get_elem? g self ≡ some t
    → (g' : Graph F) × (add_child g self node ≡ ok g') × (append_child g self node ≡ ok g')
unfolding append_child
add_child-bare g self node t bare e =
    let made : append_child g self node
        ≡ ok (set g self (record t { children = t.children ++ node ∷ [] })) =
      rw (e, append_child) in
    elim (add_child_cases g self node) [
      | inl refused ↦ absurd (IsBare-no_Below g bare refused.0)
      | inr accepted ↦ (_, accepted.1 ∙ made, made)
    ]

set-there :
    {A : Type 0} (xs : List A) (i n : ℕ) (v a : A)
    → get_elem? xs n ≡ some a
    → (b : A) × (get_elem? (set xs i v) n ≡ some b)
set-there [] i n v a h = cc
set-there (x ∷ xs) zero zero v a h = (v, refl)
set-there (x ∷ xs) zero (suc n) v a h = (a, h)
set-there (x ∷ xs) (suc i) zero v a h = (x, refl)
set-there (x ∷ xs) (suc i) (suc n) v a h = set-there xs i n v a h

append_child-there :
    {F : Type 0} (g g' : Graph F) (self node n : ℕ) (t : TaskNode F)
    → append_child g self node ≡ ok g'
    → get_elem? g n ≡ some t
    → (t' : TaskNode F) × (get_elem? g' n ≡ some t')
unfolding append_child
append_child-there g g' self node n t h e = elim (Option-cases (get_elem? g self)) [
  | inl x ↦ absurd (ok-ne-err g' index_error (sym h ∙ rw (x, append_child)))
  | inr (u, x) ↦
      let v = record u { children = u.children ++ node ∷ [] } in
      let (t', there) = set-there g self n v t e in
      (
        t',
        subst (λ l. get_elem? l n ≡ some t') (ok-injective (sym (rw (x, append_child)) ∙ h)) there,
      )
]

-- The check of `add_child` does not keep a graph acyclic: in a graph whose nodes have no preconditions two
-- calls make any two nodes `a` and `b` (or one node twice) each other's children with no exception, and `validate_dag` then
-- raises CircularDependencyError at `a`.
pub add_child_accepts_cycle :
    {F : Type 0} (g : Graph F) (a b : ℕ) (ta tb : TaskNode F)
    → IsBare g
    → get_elem? g a ≡ some ta
    → get_elem? g b ≡ some tb
    → (g1 g2 : Graph F) × (add_child g a b ≡ ok g1)
      × (add_child g1 b a ≡ ok g2)
      × (validate_dag g2 a ≡ err circular_dependency)
add_child_accepts_cycle g a b ta tb bare ea eb =
    let (g1, first, made1) = add_child-bare g a b ta bare ea in
    let (tb', eb') = append_child-there g g1 a b b tb made1 eb in
    let bare1 : IsBare g1 = λ n. rw (preconditions-append_child g g1 a b made1) (bare n) in
    let (g2, second, made2) = add_child-bare g1 b a tb' bare1 eb' in
    let down : contains (links (children_of g2) a) b ≡ true = ground (
      arith,
      links-append_child g1 g2 b a made2 a,
      links-append_child g g1 a b made1 a,
      contains-append (links (children_of g) a) (b ∷ []) b,
      contains-append (links (children_of g1) a) (a ∷ []) b,
      ==_iff a a,
      ==_iff b b,
      ==_iff b a,
    ) in
    let up : contains (links (children_of g2) b) a ≡ true = ground (
      arith,
      links-append_child g1 g2 b a made2 b,
      contains-append (links (children_of g1) b) (a ∷ []) a,
      ==_iff a a,
      ==_iff b b,
    ) in
    (
      g1,
      g2,
      first,
      second,
      elim (validate_dag_decides g2 a) [
        | inl passes ↦ absurd (passes.1 (a, inl refl, more (link down) up))
        | inr raises ↦ raises.0
      ],
    )
