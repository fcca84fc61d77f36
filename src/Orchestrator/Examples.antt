-- ===== src/Orchestrator/Examples.antt =====
-- Two models, the first of which raises, and the theorems at these values.
use qervan_ai.Common.{ℕ, zero, suc, ◌≡◌, refl, ◌⊎◌, String, [], ◌∷◌, some, Result, ok, err, lookup}
use qervan_ai.Orchestrator.{
  RoutingError, http_exception, provider_error, azure, anthropic, Config, Payload, prompt_text,
  State, validate_payload, execute_with_fallback, route_request,
}
use qervan_ai.Orchestrator.Outcomes.{Outcome}
use qervan_ai.Orchestrator.Fallback.{execute_with_fallback-Outcome}
use qervan_ai.Orchestrator.Route.{Hit, route_request_outcomes}

abbrev config : Config
config = record {
  strategy = "quality_first";
  fallback_order = "a" ∷ "b" ∷ [];
  max_retries = 3;
  endpoints = ("a", azure) ∷ ("b", anthropic) ∷ [];
}

abbrev api : ℕ → String → Payload → Result RoutingError ℕ
api zero model payload = err provider_error
api (suc n) model payload = ok n

abbrev question : Payload
question = record { prompt = some (prompt_text (72 ∷ 105 ∷ [])); rest = [] }

abbrev empty : State
empty = record { circuit_breakers = []; redis = []; calls = [] }

abbrev filled : State
filled = record { circuit_breakers = []; redis = ("llm_cache:None", 65 ∷ []) ∷ []; calls = [] }

-- The second model answers,
second_answers :
    execute_with_fallback config api "a" question empty
    ≡ (ok (some 0), record { circuit_breakers = []; redis = []; calls = "b" ∷ "a" ∷ [] })
unfolding execute_with_fallback
second_answers = refl

-- and the request still fails.
request_fails :
    (route_request config api question empty).0 ≡ err (http_exception 500 "LLM routing failure")
unfolding route_request
request_fails = refl

question_passes : validate_payload question ≡ ok question
unfolding validate_payload
question_passes = refl

cache_filled : lookup filled.redis "llm_cache:None" ≡ some (65 ∷ [])
unfolding lookup
cache_filled = refl

execute_with_fallback-Outcome_example :
    Outcome config api question 1
      ("a" ∷ "b" ∷ [])
      empty
      (execute_with_fallback config api "a" question empty)
execute_with_fallback-Outcome_example = execute_with_fallback-Outcome config api question "a" empty

route_request_outcomes_example :
    Hit config api question empty (route_request config api question empty)
    ⊎ ((status : ℕ) × (detail : String) × ((status ≡ 422) ⊎ (status ≡ 500))
        × ((route_request config api question empty).0 ≡ err (http_exception status detail)))
route_request_outcomes_example = route_request_outcomes config api question empty
