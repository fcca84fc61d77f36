-- ===== src/Planner/Decompose/Children.antt =====
-- Every decomposition of a node is made of children of the node.
use qervan_ai.Common.{
  ℕ, ◌≡◌, refl, sym, ◌∙◌, Bool, true, false, List, [], ◌∷◌, ◌++◌, ok, Dict, arith, contains,
  contains-append, All, ok-injective, >>=-eq-ok, All-snoc, subst, if◌then◌else◌, ok-ne-err,
}
use qervan_ai.Common.Int.{ℤ}
use qervan_ai.Planner.{TaskNode, Graph, attribute_error, Class, and_node, or_node, atomic_node}
use qervan_ai.Planner.Decompose.{Method, and_loop, or_loop, whole_or_none, decompose, try_child}

-- Every member of `xs` is one of `ys`.
abbrev pub Subset : List ℕ → List ℕ → Type 0
Subset ys xs = (v : ℕ) → contains xs v ≡ true → contains ys v ≡ true

module _ {F : Type 0} (method : Method F) (g : Graph F) (available : Dict ℤ) where
  and_loop-Subset :
      (all cs options : List ℕ) {found : List ℕ}
      → Subset all cs
      → Subset all options
      → and_loop method g available cs options ≡ ok found
      → Subset all found
  unfolding and_loop
  and_loop-Subset all [] options sub old h = subst (Subset all) (ok-injective h) old
  and_loop-Subset all (c ∷ cs) options {found} sub old h =
      let (fits, first, next) =
        >>=-eq-ok (try_child method g available c)
          (λ b. and_loop method g available cs (if b then options ++ c ∷ [] else options)) h in
      and_loop-Subset all cs (if fits then options ++ c ∷ [] else options)
        (λ v k. sub v (ground (arith, k)))
        (λ v k. ground (arith, contains-append options (c ∷ []) v, old v, sub v)) next

  or_loop-Subset :
      (all cs : List ℕ) (options : List (List ℕ)) {found : List (List ℕ)}
      → Subset all cs
      → All (Subset all) options
      → or_loop method g available cs options ≡ ok found
      → All (Subset all) found
  unfolding or_loop
  or_loop-Subset all [] options sub old h = subst (All (Subset all)) (ok-injective h) old
  or_loop-Subset all (c ∷ cs) options {found} sub old h =
      let (fits, first, next) =
        >>=-eq-ok (try_child method g available c)
          (λ b. or_loop method g available cs (if b then options ++ (c ∷ []) ∷ [] else options))
          h in
      or_loop-Subset all cs (if fits then options ++ (c ∷ []) ∷ [] else options)
        (λ v k. sub v (ground (arith, k))) (grown fits) next
    where
      one : Subset all (c ∷ [])
      one v k = ground (arith, sub v)

      grown : (b : Bool) → All (Subset all) (if b then options ++ (c ∷ []) ∷ [] else options)
      grown true = All-snoc (Subset all) options (c ∷ []) old one
      grown false = old

  whole_or_none-Subset :
      (all found : List ℕ)
      → Subset all found
      → All (Subset all) (whole_or_none method g available found)
  unfolding whole_or_none
  whole_or_none-Subset all [] h = tt
  whole_or_none-Subset all (c ∷ cs) h = (h, tt)

  pub decompose-Subset :
      (t : TaskNode F) {options : List (List ℕ)}
      → decompose method g available t ≡ ok options
      → All (Subset t.children) options
  unfolding decompose
  decompose-Subset t {options} h = by_class t.class refl
    where
      by_class : (k : Class) → t.class ≡ k → All (Subset t.children) options
      by_class and_node e =
          let (found, first, next) =
            >>=-eq-ok (and_loop method g available t.children [])
              (λ l. ok (whole_or_none method g available l)) (sym (rw (e, decompose)) ∙ h) in
          subst (All (Subset t.children)) (ok-injective next) (
            whole_or_none-Subset t.children found
              (and_loop-Subset t.children t.children [] (λ v k. k) (λ v k. cc) first))
      by_class or_node e =
          or_loop-Subset t.children t.children [] (λ v k. k) tt (sym (rw (e, decompose)) ∙ h)
      by_class atomic_node e =
          absurd (ok-ne-err options attribute_error (sym h ∙ rw (e, decompose)))
