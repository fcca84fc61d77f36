-- ===== src/Client/Breaker.antt =====
-- The circuit breaker against the history of the responses.
use qervan_ai.Common.{
  ℕ, ◌+◌, ◌≡◌, refl, Bool, true, not, ◌&&◌, List, [], ◌∷◌, Result, err, leb, ◌==◌, if◌then◌else◌,
  arith, map,
}
use qervan_ai.Common.Int.{ℤ, pos, ltb_ℤ}
use qervan_ai.Client.{
  Bytes, Httpx, Reply, ClientError, nuzon_error, Request, NuzonClient, init, Hmac,
  validate_response, attempt, is_retried, with_retry, execute, execute_all,
}

-- The object after the responses of a history, the latest first.
unfoldable pub observe : Httpx → List ℕ → NuzonClient → NuzonClient
observe h [] c = c
observe h (status ∷ older) c = validate_response h status (observe h older c)

-- The server errors since the last success; other statuses do not count and do not reset.
pub failures : Httpx → List ℕ → ℕ
failures h [] = 0
failures h (status ∷ older) =
    let before = failures h older in
    if leb 500 status then before + 1 else if h.is_success status then 0 else before

-- There is a failure, and the failures reach the threshold.
abbrev pub tripped : ℕ → ℤ → Bool
tripped n threshold = not (n == 0) && not (ltb_ℤ (pos n) threshold)

pub record Matches (h : Httpx) (history : List ℕ) (c : NuzonClient) : Type 0 where
  pub count : c.failure_count ≡ failures h history
  pub opened : c.circuit_open ≡ tripped c.failure_count c.circuit_breaker_threshold

validate_response-Matches :
    (h : Httpx) (status : ℕ) (history : List ℕ) (c : NuzonClient)
    → Matches h history c
    → Matches h (status ∷ history) (validate_response h status c)
unfolding validate_response failures
validate_response-Matches h status history c m = ground (arith, m.count, m.opened)

observe-Matches :
    (h : Httpx) (history : List ℕ) (api_key : Bytes) (threshold : ℤ)
    → Matches h history (observe h history (init api_key threshold))
unfolding observe failures init
observe-Matches h [] api_key threshold = record { count = refl; opened = refl }
observe-Matches h (status ∷ older) api_key threshold =
    validate_response-Matches h status older (observe h older (init api_key threshold))
      (observe-Matches h older api_key threshold)

observe-threshold :
    (h : Httpx) (history : List ℕ) (c : NuzonClient)
    → (observe h history c).circuit_breaker_threshold ≡ c.circuit_breaker_threshold
unfolding observe validate_response
observe-threshold h [] c = refl
observe-threshold h (status ∷ older) c = ground (arith, observe-threshold h older c)

-- On a new client, after any history of responses, the failure count is the number of server errors (500 and
-- above) since the last success, and the circuit is open exactly if there is such an error and their number
-- reaches the threshold. Statuses that are neither leave both as they are.
pub observe-init :
    (h : Httpx) (history : List ℕ) (api_key : Bytes) (threshold : ℤ)
    → let c = observe h history (init api_key threshold) in
      (c.failure_count ≡ failures h history)
      × (c.circuit_open ≡ tripped (failures h history) threshold)
unfolding init
observe-init h history api_key threshold =
    let m = observe-Matches h history api_key threshold in
    let same = observe-threshold h history (init api_key threshold) in
    (m.count, ground (arith, m.count, m.opened, same))

module _ {R : Type 0} (h : Httpx) (hmac : Hmac) (clock : ℕ → Bytes)
    (server : ℕ → Request → Reply R) where
  -- The error that every call ends in while the circuit is open.
  abbrev pub refused : Result ClientError R
  refused = err (nuzon_error "Circuit breaker active" 503)

  abbrev pub all_refused : List Request → List (Result ClientError R)
  all_refused requests = map (λ _. refused) requests

  execute_open :
      (request : Request) (c : NuzonClient)
      → c.circuit_open ≡ true
      → execute h hmac clock server request c ≡ (refused, c)
  unfolding execute is_retried
  execute_open request c e =
      let stays : attempt h hmac clock server request c ≡ (refused, c) = simp (e, attempt) in
      simp (stays, with_retry)

  -- Once the circuit is open, every later `execute` call fails with code 503, sends nothing and
  -- changes nothing: no sequence of `execute` calls closes the circuit again.
  pub execute_all_open :
      (requests : List Request) (c : NuzonClient)
      → c.circuit_open ≡ true
      → execute_all h hmac clock server requests c ≡ (all_refused requests, c)
  unfolding execute_all
  execute_all_open [] c e = refl
  execute_all_open (request ∷ requests) c e =
      simp (execute_open request c e, execute_all_open requests c e)
