-- ===== src/Orchestrator.antt =====
-- core/cognition_engine/llm_orchestrator/mistral_integration.py: MistralOrchestrator.
-- The providers' clients are a parameter: what the n-th call of a model gives, an answer or an exception.
pub mod Outcomes
pub mod Fallback
pub mod Route
mod Examples
use Prim.Native.String.{◌++◌ as str_append}
use qervan_ai.Common.{
  ℕ, zero, suc, ◌+◌, Bool, true, false, not, ◌≡◌, String, List, [], ◌∷◌, Option, none, some, Result,
  ok, err, ◌>>=◌, Dict, lookup, lookup_or, length, leb, ltb, ◌==◌, if◌then◌else◌, str_eq, Text,
}

pub data RoutingError : Type 0 where
  http_exception : (status : ℕ) (detail : String) → RoutingError
  runtime_error : (message : String) → RoutingError
  validation_error : (message : String) → RoutingError
  key_error type_error index_error attribute_error provider_error : RoutingError

pub data Provider : Type 0 where
  huggingface azure anthropic unknown : Provider

-- RouterConfig, the part of it that is read, and the endpoints' providers.
pub record Config : Type 0 where
  pub strategy : String
  pub fallback_order : List String
  pub max_retries : ℕ
  pub endpoints : Dict Provider

-- _initialize_clients: an endpoint of a known provider has a client.
unfoldable pub initialize_clients : Dict Provider → Dict Provider
initialize_clients [] = []
initialize_clients ((model, unknown) ∷ endpoints) = initialize_clients endpoints
initialize_clients ((model, p) ∷ endpoints) = (model, p) ∷ initialize_clients endpoints

-- payload.get("prompt", ""): a text, or a value that has no length.
pub data Prompt : Type 0 where
  prompt_text : Text → Prompt
  no_length : Prompt

pub record Payload : Type 0 where
  pub prompt : Option Prompt
  pub rest : Dict Text

-- The breakers, the cache of Redis, and the models called, the latest first.
pub record State : Type 0 where
  pub circuit_breakers : Dict Bool
  pub redis : Dict Text
  pub calls : List String

-- A cached text, or what _format_output gives, which is None.
pub data Output : Type 0 where
  cached : Text → Output
  formatted : Output

unfoldable pub validate_payload : Payload → Result RoutingError Payload
validate_payload payload = elim payload.prompt [
  | none ↦ ok payload
  | some no_length ↦ err type_error
  | some (prompt_text t) ↦
      if ltb 10000 (length t)
      then err (http_exception 413 "Input exceeds maximum length")
      else ok payload
]

-- _generate_semantic_hash has no body: the hash is None, for every payload.
unfoldable pub generate_semantic_hash : Payload → Option String
generate_semantic_hash payload = none

-- f"llm_cache:{semantic_hash}"
abbrev pub cache_key : Option String → String
cache_key none = "llm_cache:None"
cache_key (some hash) = str_append "llm_cache:" hash

unfoldable pub check_cache : Payload → State → Option Text
unfolding generate_semantic_hash lookup
check_cache payload st = lookup st.redis (cache_key (generate_semantic_hash payload))

-- self.config has no entry "cache_ttl".
unfoldable pub cache_response : Result RoutingError (Unit {0})
cache_response = err key_error

-- The methods of the other strategies do not exist.
unfoldable pub select_model : Config → Result RoutingError String
select_model config =
    if str_eq config.strategy "quality_first"
    then elim config.fallback_order [ [] ↦ err index_error | model ∷ models ↦ ok model ]
    else err attribute_error

unfoldable pub is_model_available : State → String → Bool
unfolding lookup_or
is_model_available st model = not (lookup_or st.circuit_breakers model false)

-- _update_circuit_breaker has no body.
unfoldable pub update_circuit_breaker : String → State → State
update_circuit_breaker model st = st

module _ {R : Type 0} (config : Config) (api : ℕ → String → Payload → Result RoutingError R) where
  -- What the n-th call of a model gives. `None` is the answer for a provider that is none of the three.
  unfoldable pub answer : ℕ → String → Payload → Result RoutingError (Option R)
  unfolding initialize_clients lookup
  answer n model payload = elim (lookup (initialize_clients config.endpoints) model) [
    | none ↦ err key_error
    | some client ↦ elim (lookup config.endpoints model) [
      | none ↦ err key_error
      | some unknown ↦ ok none
      | some _ ↦ api n model payload >>= λ r. ok (some r)
    ]
  ]

  unfoldable pub call_model_api : String → Payload → State → Result RoutingError (Option R) × State
  unfolding answer
  call_model_api model payload st =
      (answer (length st.calls) model payload, record st { calls = model ∷ st.calls })

  -- The loop of _execute_with_fallback, which numbers the models from 1.
  unfoldable pub fallback_loop :
      ℕ → List String → Payload → State → Result RoutingError (Option R) × State
  unfolding is_model_available call_model_api update_circuit_breaker
  fallback_loop attempt [] payload st = (err (runtime_error "All fallback models exhausted"), st)
  fallback_loop attempt (model ∷ models) payload st =
      let (result, st') = call_model_api model payload st in
      let next = fallback_loop (attempt + 1) models payload (update_circuit_breaker model st') in
      let skip = fallback_loop (attempt + 1) models payload st in
      if is_model_available st model
      then elim result [
        | ok r ↦ (ok r, st')
        | err e ↦
            if attempt == config.max_retries
            then (err e, update_circuit_breaker model st')
            else next
      ]
      else skip

  unfoldable pub execute_with_fallback :
      String → Payload → State → Result RoutingError (Option R) × State
  unfolding fallback_loop
  execute_with_fallback primary_model payload st = fallback_loop 1 config.fallback_order payload st

  -- The body of `try` in route_request, once the cache has no answer.
  unfoldable pub fresh : Payload → State → Result RoutingError Output × State
  unfolding select_model execute_with_fallback cache_response
  fresh payload st = elim (select_model config) [
    | err e ↦ (err e, st)
    | ok selected_model ↦
        let (result, st') = execute_with_fallback selected_model payload st in
        (result >>= (λ response. cache_response >>= λ _. ok formatted), st')
  ]

  -- if cached: return cached
  unfoldable pub try_route : Payload → State → Result RoutingError Output × State
  unfolding validate_payload check_cache fresh
  try_route payload st = elim (validate_payload payload) [
    | err e ↦ (err e, st)
    | ok validated ↦ elim (check_cache validated st) [
      | none ↦ fresh validated st
      | some [] ↦ fresh validated st
      | some (c ∷ cs) ↦ (ok (cached (c ∷ cs)), st)
    ]
  ]

-- except ValidationError; except Exception
unfoldable pub to_http : {A : Type 0} → Result RoutingError A → Result RoutingError A
to_http (ok a) = ok a
to_http (err (validation_error message)) = err (http_exception 422 message)
to_http (err e) = err (http_exception 500 "LLM routing failure")

unfoldable pub route_request :
    {R : Type 0}
    → Config
    → (ℕ → String → Payload → Result RoutingError R)
    → Payload
    → State
    → Result RoutingError Output × State
unfolding try_route to_http
route_request config api payload st =
    let (result, st') = try_route config api payload st in (to_http result, st')
