-- ===== src/Orchestrator/Route.antt =====
-- What route_request returns and raises.
use qervan_ai.Common.{
  ℕ, ◌≡◌, refl, sym, ap, ◌∙◌, ◌⊎◌, inl, inr, String, ◌∷◌, Option, none, some, Result, ok, err,
  length, Bool-cases, Result-cases, Option-cases, List-cases, Text, Dict, ok-ne-err, ok-injective,
  ltb,
}
use qervan_ai.Orchestrator.{
  RoutingError, http_exception, key_error, runtime_error, validation_error, type_error, index_error,
  attribute_error, provider_error, Config, Payload, Prompt, prompt_text, no_length, State, Output,
  cached, validate_payload, check_cache, select_model, cache_response, execute_with_fallback, fresh,
  try_route, to_http, route_request,
}

-- A payload that passes is passed on as it is.
validate_payload-same :
    (prompt : Option Prompt) (rest : Dict Text) (v : Payload)
    → validate_payload (record { prompt = prompt; rest = rest }) ≡ ok v
    → v ≡ record { prompt = prompt; rest = rest }
unfolding validate_payload
validate_payload-same none rest v e = sym (ok-injective e)
validate_payload-same (some no_length) rest v e = cc
validate_payload-same (some (prompt_text t)) rest v e = elim (Bool-cases (ltb 10000 (length t))) [
  | inl long ↦
      absurd
        (ok-ne-err v (http_exception 413 "Input exceeds maximum length") (sym e ∙ rw long refl))
  | inr short ↦ sym (ok-injective (sym (rw short refl) ∙ e))
]

module _ {R : Type 0} (config : Config) (api : ℕ → String → Payload → Result RoutingError R) where
  -- Without an answer from the cache the routing raises: storing the answer always does.
  fresh_raises :
      (payload : Payload) (st : State)
      → (e : RoutingError) × ((fresh config api payload st).0 ≡ err e)
  unfolding fresh cache_response
  fresh_raises payload st = elim (Result-cases (select_model config)) [
    | inr (e, refused) ↦ (e, rw (refused, fresh) refl)
    | inl (model, selected) ↦
        elim (Result-cases (execute_with_fallback config api model payload st).0) [
          | inl (r, answered) ↦ (key_error, rw (selected, fresh) (rw answered refl))
          | inr (e, failed) ↦ (e, rw (selected, fresh) (rw failed refl))
        ]
  ]

  -- The text of the cache that is returned in place of an answer.
  pub Hit : Payload → State → Result RoutingError Output × State → Type 0
  Hit payload st out =
      (c : ℕ) × (cs : Text) × (check_cache payload st ≡ some (c ∷ cs))
      × (out ≡ (ok (cached (c ∷ cs)), st))

  try_route_cases :
      (payload : Payload) (st : State)
      → Hit payload st (try_route config api payload st)
        ⊎ ((e : RoutingError) × ((try_route config api payload st).0 ≡ err e))
  unfolding try_route Hit
  try_route_cases payload st = elim (Result-cases (validate_payload payload)) [
    | inr (e, refused) ↦ inr (e, rw (refused, try_route) refl)
    | inl (v, passes) ↦
        let same = validate_payload-same payload.prompt payload.rest v passes in
        let raises : (found : check_cache v st ≡ none)
            → (e : RoutingError) × ((try_route config api payload st).0 ≡ err e) =
          λ found. (let (e, r) = fresh_raises v st in (e, rw (passes, found, try_route) r)) in
        elim (Option-cases (check_cache v st)) [
          | inl missing ↦ inr (raises missing)
          | inr (t, found) ↦ elim (List-cases t) [
            | inl empty ↦
                let (e, r) = fresh_raises v st in inr (e, rw (passes, found, empty, try_route) r)
            | inr (c, cs, full) ↦ inl (
              c,
              cs,
              ap (λ p. check_cache p st) (sym same) ∙ found ∙ ap some full,
              rw (passes, found, full, try_route) refl,
            )
          ]
        ]
  ]

to_http_cases :
    {A : Type 0} (e : RoutingError)
    → (status : ℕ) × (detail : String) × ((status ≡ 422) ⊎ (status ≡ 500))
      × (to_http {A = A} (err e) ≡ err (http_exception status detail))
unfolding to_http
to_http_cases (validation_error message) = (422, message, inl refl, refl)
to_http_cases (http_exception status detail) = (500, "LLM routing failure", inr refl, refl)
to_http_cases (runtime_error message) = (500, "LLM routing failure", inr refl, refl)
to_http_cases key_error = (500, "LLM routing failure", inr refl, refl)
to_http_cases type_error = (500, "LLM routing failure", inr refl, refl)
to_http_cases index_error = (500, "LLM routing failure", inr refl, refl)
to_http_cases attribute_error = (500, "LLM routing failure", inr refl, refl)
to_http_cases provider_error = (500, "LLM routing failure", inr refl, refl)

-- route_request never returns an answer of a model: it returns a text of the cache that is not empty and changes
-- nothing, or it raises an HTTPException with status 422 or 500 (so never with the 413 of a prompt that is too
-- long).
pub route_request_outcomes :
    {R : Type 0} (config : Config) (api : ℕ → String → Payload → Result RoutingError R)
    (payload : Payload) (st : State)
    → Hit config api payload st (route_request config api payload st)
      ⊎ ((status : ℕ) × (detail : String) × ((status ≡ 422) ⊎ (status ≡ 500))
          × ((route_request config api payload st).0 ≡ err (http_exception status detail)))
unfolding route_request Hit to_http
route_request_outcomes config api payload st = elim (try_route_cases config api payload st) [
  | inl (c, cs, found, same) ↦ inl (c, cs, found, ap (λ o. (to_http o.0, o.1)) same)
  | inr (e, raised) ↦
      let (status, detail, either, mapped) = to_http_cases {A = Output} e in
      inr (status, detail, either, ap to_http raised ∙ mapped)
]
