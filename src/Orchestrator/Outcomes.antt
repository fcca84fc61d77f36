-- ===== src/Orchestrator/Outcomes.antt =====
-- How _execute_with_fallback can end: the models asked, and the outcomes.
use qervan_ai.Common.{
  ◌<◌, eq_of_some, true-ne-false, ℕ, zero, suc, ◌<◌, eq_of_some, true-ne-false, ◌+◌, Bool, true,
  false, ◌≡◌, refl, sym, ap, ◌∙◌, subst, String, List, [], ◌∷◌, ◌++◌, Option, some, Result, ok, err,
  Dict, lookup_or, length, get_elem?, if◌then◌else◌, arith,
}
use qervan_ai.Orchestrator.{RoutingError, runtime_error, Config, Payload, State, answer}

-- The models whose breaker is not open, in order.
unfoldable pub available : Dict Bool → List String → List String
available open_now [] = []
available open_now (model ∷ models) =
    let rest = available open_now models in
    if lookup_or open_now model false then rest else model ∷ rest

-- The calls after these models were asked one after another.
unfoldable pub asked : List String → List String → List String
asked [] calls = calls
asked (model ∷ models) calls = asked models (model ∷ calls)

-- The first models of the order.
unfoldable pub take : ℕ → List String → List String
take zero models = []
take (suc n) [] = []
take (suc n) (model ∷ models) = model ∷ take n models

renumber : (a b : ℕ) → suc a + b ≡ a + suc b
renumber a b = omega arith

pub no_more : (a : ℕ) → a ≡ a + 0
no_more a = omega arith

module _ {R : Type 0} (config : Config) (api : ℕ → String → Payload → Result RoutingError R)
    (payload : Payload) where
  -- Calls number n, n + 1, … of these models all raise.
  abbrev pub AllFail : ℕ → List String → Type 0
  AllFail n [] = Unit
  AllFail n (model ∷ models) =
      ((e : RoutingError) × (answer config api n model payload ≡ err e)) × AllFail (suc n) models

  -- No available model among the first n stands at the place max_retries, the first having the place `attempt`.
  unfoldable pub NoneLast : ℕ → List String → State → ℕ → Type 0
  NoneLast attempt models st n =
      (j : ℕ) (m : String)
      → j < n
      → get_elem? models j ≡ some m
      → lookup_or st.circuit_breakers m false ≡ false
      → ¬ (attempt + j ≡ config.max_retries)

  -- The outcomes of the loop over the models, the first of which has this number.
  pub data Outcome (attempt : ℕ) (models : List String) (st : State)
      : Result RoutingError (Option R) × State → Type 0 where
    answered :
        (failed : List String) (model : String) (later : List String) (i : ℕ) (r : Option R)
        → available st.circuit_breakers models ≡ failed ++ model ∷ later
        → AllFail (length st.calls) failed
        → answer config api (length st.calls + length failed) model payload ≡ ok r
        → get_elem? models i ≡ some model
        → available st.circuit_breakers (take i models) ≡ failed
        → NoneLast attempt models st i
        → Outcome attempt models st (ok r, record st { calls = model ∷ asked failed st.calls })
    gave_up :
        (failed : List String) (model : String) (later : List String) (i : ℕ) (e : RoutingError)
        → available st.circuit_breakers models ≡ failed ++ model ∷ later
        → AllFail (length st.calls) failed
        → answer config api (length st.calls + length failed) model payload ≡ err e
        → get_elem? models i ≡ some model
        → available st.circuit_breakers (take i models) ≡ failed
        → attempt + i ≡ config.max_retries
        → Outcome attempt models st (err e, record st { calls = model ∷ asked failed st.calls })
    exhausted :
        (failed : List String)
        → available st.circuit_breakers models ≡ failed
        → AllFail (length st.calls) failed
        → NoneLast attempt models st (length models)
        → Outcome attempt models st (
          err (runtime_error "All fallback models exhausted"),
          record st { calls = asked failed st.calls },
        )

  -- The first model is down, or not at the last place.
  NoneLast-suc :
      (attempt : ℕ) (model : String) (models : List String) (st st' : State) (n : ℕ)
      → (lookup_or st.circuit_breakers model false ≡ false → ¬ (attempt ≡ config.max_retries))
      → st'.circuit_breakers ≡ st.circuit_breakers
      → NoneLast (attempt + 1) models st' n
      → NoneLast attempt (model ∷ models) st (suc n)
  unfolding NoneLast
  NoneLast-suc attempt model models st st' n first same rest zero m l place up number =
      first (ap (λ k. lookup_or st.circuit_breakers k false) (eq_of_some place) ∙ up)
        (omega (arith, number))
  NoneLast-suc attempt model models st st' n first same rest (suc j) m l place up number =
      rest j m (omega (arith, l)) place (ap (λ b. lookup_or b m false) same ∙ up)
        (omega (arith, number))

  pub NoneLast-zero :
      (attempt : ℕ) (models : List String) (st : State) → NoneLast attempt models st 0
  unfolding NoneLast
  NoneLast-zero attempt models st j m l place up number = absurd (omega (arith, l))

  -- A model with an open breaker is passed over.
  pub Outcome-skip :
      (attempt : ℕ) (model : String) (models : List String) (st : State)
      (out : Result RoutingError (Option R) × State)
      → lookup_or st.circuit_breakers model false ≡ true
      → Outcome (attempt + 1) models st out
      → Outcome attempt (model ∷ models) st out
  unfolding available take
  Outcome-skip attempt model models st _ e
        (answered failed m later i r split fails last place earlier none_last) =
      answered failed m later (suc i) r (rw e split) fails last place (rw e earlier) (
        NoneLast-suc attempt model models st st i (λ up. absurd (true-ne-false (sym e ∙ up))) refl
          none_last)
  Outcome-skip attempt model models st _ e
        (gave_up failed m later i x split fails last place earlier number) =
      gave_up failed m later (suc i) x (rw e split) fails last place (rw e earlier)
        (omega (arith, number))
  Outcome-skip attempt model models st _ e (exhausted failed split fails none_last) =
      exhausted failed (rw e split) fails (
        NoneLast-suc attempt model models st st (length models)
          (λ up. absurd (true-ne-false (sym e ∙ up))) refl none_last)

  -- A model that raises is followed by the others.
  pub Outcome-next :
      (attempt : ℕ) (model : String) (models : List String) (st : State) (error : RoutingError)
      (out : Result RoutingError (Option R) × State)
      → lookup_or st.circuit_breakers model false ≡ false
      → answer config api (length st.calls) model payload ≡ err error
      → ¬ (attempt ≡ config.max_retries)
      → Outcome (attempt + 1) models (record st { calls = model ∷ st.calls }) out
      → Outcome attempt (model ∷ models) st out
  unfolding available asked take
  Outcome-next attempt model models st error _ up fail more
        (answered failed m later i r split fails last place earlier none_last) =
      answered (model ∷ failed) m later (suc i) r (rw up (ap (λ ms. model ∷ ms) split))
        ((error, fail), fails)
        (subst (λ n. answer config api n m payload ≡ ok r)
          (renumber (length st.calls) (length failed)) last)
        place (rw up (ap (λ ms. model ∷ ms) earlier))
        (NoneLast-suc attempt model models st (record st { calls = model ∷ st.calls }) i (λ _. more)
          refl none_last)
  Outcome-next attempt model models st error _ up fail more
        (gave_up failed m later i x split fails last place earlier number) =
      gave_up (model ∷ failed) m later (suc i) x (rw up (ap (λ ms. model ∷ ms) split))
        ((error, fail), fails)
        (subst (λ n. answer config api n m payload ≡ err x)
          (renumber (length st.calls) (length failed)) last)
        place (rw up (ap (λ ms. model ∷ ms) earlier)) (omega (arith, number))
  Outcome-next attempt model models st error _ up fail more
        (exhausted failed split fails none_last) =
      exhausted (model ∷ failed) (rw up (ap (λ ms. model ∷ ms) split)) ((error, fail), fails)
        (NoneLast-suc attempt model models st (record st { calls = model ∷ st.calls })
          (length models) (λ _. more) refl none_last)
