-- ===== src/Orchestrator/Fallback.antt =====
-- Which models the fallback asks, and what it ends in.
use qervan_ai.Common.{
  true-ne-false, ℕ, true-ne-false, ◌+◌, true, false, ◌≡◌, refl, sym, ◌∙◌, subst, inl, inr, String,
  List, [], ◌∷◌, Option, Result, ok, err, lookup_or, length, ◌==◌, ==_iff, Bool-cases, Result-cases,
}
use qervan_ai.Orchestrator.{
  RoutingError, Config, Payload, State, is_model_available, answer, call_model_api,
  update_circuit_breaker, fallback_loop, execute_with_fallback,
}
use qervan_ai.Orchestrator.Outcomes.{
  take, available, asked, NoneLast-zero, Outcome, answered, gave_up, exhausted, Outcome-skip,
  Outcome-next, no_more,
}

module _ {R : Type 0} (config : Config) (api : ℕ → String → Payload → Result RoutingError R)
    (payload : Payload) where
  ==_ne : (a b : ℕ) → (a == b) ≡ false → ¬ (a ≡ b)
  ==_ne a b differ same = absurd (true-ne-false (sym ((==_iff a b).1 same) ∙ differ))

  -- One round of the loop, in its three cases.
  loop_skips :
      (attempt : ℕ) (model : String) (models : List String) (st : State)
      → lookup_or st.circuit_breakers model false ≡ true
      → fallback_loop config api attempt (model ∷ models) payload st
        ≡ fallback_loop config api (attempt + 1) models payload st
  unfolding fallback_loop is_model_available
  loop_skips attempt model models st e = rw (e, fallback_loop) refl

  loop_answers :
      (attempt : ℕ) (model : String) (models : List String) (st : State) (r : Option R)
      → lookup_or st.circuit_breakers model false ≡ false
      → answer config api (length st.calls) model payload ≡ ok r
      → fallback_loop config api attempt (model ∷ models) payload st
        ≡ (ok r, record st { calls = model ∷ st.calls })
  unfolding fallback_loop is_model_available call_model_api
  loop_answers attempt model models st r e f = rw (e, f, fallback_loop) refl

  loop_gives_up :
      (attempt : ℕ) (model : String) (models : List String) (st : State) (error : RoutingError)
      → lookup_or st.circuit_breakers model false ≡ false
      → answer config api (length st.calls) model payload ≡ err error
      → (attempt == config.max_retries) ≡ true
      → fallback_loop config api attempt (model ∷ models) payload st
        ≡ (err error, record st { calls = model ∷ st.calls })
  unfolding fallback_loop is_model_available call_model_api update_circuit_breaker
  loop_gives_up attempt model models st error e f l = rw (e, f, l, fallback_loop) refl

  loop_goes_on :
      (attempt : ℕ) (model : String) (models : List String) (st : State) (error : RoutingError)
      → lookup_or st.circuit_breakers model false ≡ false
      → answer config api (length st.calls) model payload ≡ err error
      → (attempt == config.max_retries) ≡ false
      → fallback_loop config api attempt (model ∷ models) payload st
        ≡ fallback_loop config api
            (attempt + 1)
            models
            payload
            (record st { calls = model ∷ st.calls })
  unfolding fallback_loop is_model_available call_model_api update_circuit_breaker
  loop_goes_on attempt model models st error e f l = rw (e, f, l, fallback_loop) refl

  first_of_available :
      (st : State) (model : String) (models : List String)
      → lookup_or st.circuit_breakers model false ≡ false
      → available st.circuit_breakers (model ∷ models)
        ≡ model ∷ available st.circuit_breakers models
  unfolding available
  first_of_available st model models up = rw up refl

  none_left :
      (attempt : ℕ) (st : State)
      → Outcome config api payload attempt [] st (fallback_loop config api attempt [] payload st)
  unfolding fallback_loop available asked
  none_left attempt st = exhausted [] refl tt (NoneLast-zero config api payload attempt [] st)

  first_answers :
      (attempt : ℕ) (model : String) (models : List String) (st : State) (r : Option R)
      → lookup_or st.circuit_breakers model false ≡ false
      → answer config api (length st.calls) model payload ≡ ok r
      → Outcome config api payload attempt
          (model ∷ models)
          st
          (ok r, record st { calls = model ∷ st.calls })
  unfolding asked available take
  first_answers attempt model models st r up e =
      answered [] model (available st.circuit_breakers models) 0 r
        (first_of_available st model models up) tt
        (subst (λ n. answer config api n model payload ≡ ok r) (no_more (length st.calls)) e) refl
        refl (NoneLast-zero config api payload attempt (model ∷ models) st)

  first_gives_up :
      (attempt : ℕ) (model : String) (models : List String) (st : State) (error : RoutingError)
      → lookup_or st.circuit_breakers model false ≡ false
      → answer config api (length st.calls) model payload ≡ err error
      → (attempt == config.max_retries) ≡ true
      → Outcome config api payload attempt
          (model ∷ models)
          st
          (err error, record st { calls = model ∷ st.calls })
  unfolding asked available take
  first_gives_up attempt model models st error up e last =
      gave_up [] model (available st.circuit_breakers models) 0 error
        (first_of_available st model models up) tt
        (subst (λ n. answer config api n model payload ≡ err error) (no_more (length st.calls)) e)
        refl refl (sym (no_more attempt) ∙ (==_iff attempt config.max_retries).0 last)

  fallback_loop-Outcome :
      (attempt : ℕ) (models : List String) (st : State)
      → Outcome config api payload attempt models st
          (fallback_loop config api attempt models payload st)
  fallback_loop-Outcome attempt [] st = none_left attempt st
  fallback_loop-Outcome attempt (model ∷ models) st =
      let there = Outcome config api payload attempt (model ∷ models) st in
      let after = record st { calls = model ∷ st.calls } in
      elim (Bool-cases (lookup_or st.circuit_breakers model false)) [
        | inl down ↦ subst there (sym (loop_skips attempt model models st down)) (
            Outcome-skip config api payload attempt model models st _ down
              (fallback_loop-Outcome (attempt + 1) models st))
        | inr up ↦ elim (Result-cases (answer config api (length st.calls) model payload)) [
          | inl (r, e) ↦
              subst there (sym (loop_answers attempt model models st r up e))
                (first_answers attempt model models st r up e)
          | inr (error, e) ↦ elim (Bool-cases (attempt == config.max_retries)) [
            | inl last ↦
                subst there (sym (loop_gives_up attempt model models st error up e last))
                  (first_gives_up attempt model models st error up e last)
            | inr more ↦ subst there (sym (loop_goes_on attempt model models st error up e more)) (
                Outcome-next config api payload attempt model models st error _ up e
                  (==_ne attempt config.max_retries more)
                  (fallback_loop-Outcome (attempt + 1) models after))
          ]
        ]
      ]

  -- _execute_with_fallback ends in one of three ways, whatever the primary model. An available model
  -- (its breaker is not open) answers, exactly the available ones before it in the fallback order having
  -- been asked once each, in order, and having raised, none of them at the place max_retries of the
  -- order (unavailable ones count); or the available one at that place raises, those before it having
  -- raised, and its exception is raised; or all available ones raise, none of them stands at that place,
  -- and RuntimeError is raised.
  pub execute_with_fallback-Outcome :
      (primary_model : String) (st : State)
      → Outcome config api payload 1 config.fallback_order st
          (execute_with_fallback config api primary_model payload st)
  unfolding execute_with_fallback
  execute_with_fallback-Outcome primary_model st = fallback_loop-Outcome 1 config.fallback_order st
