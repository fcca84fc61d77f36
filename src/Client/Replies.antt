-- ===== src/Client/Replies.antt =====
-- What the replies of httpx give, and what the response hook sees of them.
use qervan_ai.Common.{
  ℕ, ◌≡◌, refl, ◌∙◌, inl, inr, Bool, true, false, List, [], ◌∷◌, none, some, Result, err, arith,
  Bool-cases, leb,
}
use qervan_ai.Client.{
  Httpx, Body, object, Failure, network_error, timeout_error, other_error, Reply, lost, cut,
  response, ClientError, NuzonClient, read_response, parse_response, handle_http_error, not_json,
  not_object, validate_response, is_retried, failure_error,
}
use qervan_ai.Client.Breaker.{observe}

-- The count of requests is not the breaker's.
pub validate_response-sent :
    (h : Httpx) (status : ℕ) (c : NuzonClient) (n : ℕ)
    → validate_response h status (record c { sent = n })
      ≡ record (validate_response h status c) { sent = n }
unfolding validate_response
validate_response-sent h status c n = elim (Bool-cases (leb 500 status)) [
  | inl server_error ↦ rw (server_error, validate_response) refl
  | inr other ↦ elim (Bool-cases (h.is_success status)) [
    | inl success ↦ rw (other, success, validate_response) refl
    | inr neither ↦ rw (other, neither, validate_response) refl
  ]
]

validate_response-api_key :
    (h : Httpx) (status : ℕ) (c : NuzonClient) → (validate_response h status c).api_key ≡ c.api_key
unfolding validate_response
validate_response-api_key h status c = ground arith

pub observe-api_key :
    (h : Httpx) (history : List ℕ) (c : NuzonClient) → (observe h history c).api_key ≡ c.api_key
unfolding observe
observe-api_key h [] c = refl
observe-api_key h (status ∷ older) c =
    validate_response-api_key h status (observe h older c) ∙ observe-api_key h older c

-- The exceptions that are retried.
pub is_transient : Failure → Bool
is_transient network_error = true
is_transient timeout_error = true
is_transient other_error = false

failure-is_retried :
    (R : Type 0) (failure : Failure)
    → is_retried {R = R} (err (failure_error failure)) ≡ is_transient failure
unfolding is_retried failure_error is_transient
failure-is_retried R network_error = refl
failure-is_retried R timeout_error = refl
failure-is_retried R other_error = refl

module _ {R : Type 0} where
  -- The reply ends in a network error or a timeout.
  unfoldable pub transient : Reply R → Bool
  transient (lost failure) = is_transient failure
  transient (cut status failure) = is_transient failure
  transient (response status body) = false

  -- The statuses that the response hook has been given, the latest first.
  unfoldable pub seen : Reply R → List ℕ → List ℕ
  seen (lost failure) older = older
  seen (cut status failure) older = status ∷ older
  seen (response status body) older = status ∷ older

  -- What a reply gives: its exception, or what is read from the response.
  unfoldable pub answer_of : Httpx → Reply R → Result ClientError R
  answer_of h (lost failure) = err (failure_error failure)
  answer_of h (cut status failure) = err (failure_error failure)
  answer_of h (response status body) = read_response h status body

  http_error-not-retried :
      (status : ℕ) (b : Body R) → is_retried {R = R} (err (handle_http_error status b)) ≡ false
  unfolding is_retried handle_http_error
  http_error-not-retried status not_json = refl
  http_error-not-retried status not_object = refl
  http_error-not-retried status (object none r) = refl
  http_error-not-retried status (object (some m) r) = refl

  parsed-not-retried : (b : Body R) → is_retried (parse_response b) ≡ false
  unfolding is_retried parse_response
  parsed-not-retried not_json = refl
  parsed-not-retried not_object = refl
  parsed-not-retried (object m none) = refl
  parsed-not-retried (object m (some r)) = refl

  -- What is retried is what a transient reply gives.
  pub answer_of-is_retried : (h : Httpx) (r : Reply R) → is_retried (answer_of h r) ≡ transient r
  unfolding answer_of transient read_response
  answer_of-is_retried h (lost failure) = failure-is_retried R failure
  answer_of-is_retried h (cut status failure) = failure-is_retried R failure
  answer_of-is_retried h (response status body) = elim (Bool-cases (h.raises_for_status status)) [
    | inl raises ↦ rw (raises, read_response) (http_error-not-retried status body)
    | inr passes ↦ rw (passes, read_response) (parsed-not-retried body)
  ]
